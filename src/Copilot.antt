-- ===== src/Copilot.antt =====
-- packages/plugin-copilot: agents that sit in a room and answer its events under a budget.
pub mod Budget
pub mod Cost
pub mod Dispatch
pub mod Member
pub mod Name
pub mod Prompt
pub mod Run
pub mod Runtime
pub mod Triggers
mod Tests
mod TriggerTests
mod RunTests
