-- ===== src/Skill.antt =====
-- The JavaScript of easyclaw-skill/scripts: a trading agent's tools around the exchange's programs
-- and its API.
pub mod Words
pub mod Platform
pub mod Accounts
pub mod Args
pub mod Plan
pub mod Setup
pub mod Execute
pub mod Agent
pub mod Api
pub mod Balance
pub mod Commands
pub mod Onboard
mod Tests
