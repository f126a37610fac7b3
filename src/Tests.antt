-- ===== src/Tests.antt =====
-- Runs of the model on concrete inputs, a module for each part.
mod Clock
mod Leads
mod Jobs
mod Mail
mod Pass
mod Answer
mod Review
mod Sending
