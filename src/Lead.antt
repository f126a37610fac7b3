-- ===== src/Lead.antt =====
-- The lead: its state machine (app/domain/state.py) and the single writer of its state
-- (app/db/state.py).
pub mod State
pub mod Transition
