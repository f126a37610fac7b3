-- ===== src/Campaign.antt =====
-- The campaign: its settings (app/domain/campaign.py) and its schedule
-- (app/domain/campaign_schedule.py).
pub mod Settings
pub mod Status
