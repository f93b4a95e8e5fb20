-- ===== src/Automations.antt =====
-- src/modules/automations: the engines that decide on triggers and conditions and run actions.
pub mod Trigger
pub mod Condition
pub mod Actions
pub mod Matching
pub mod Branching
pub mod Sorting
pub mod Bounds
pub mod Runs
pub mod Service
pub mod Dispatch
pub mod Counting
pub mod Interface
pub mod Processor
pub mod Keeping
pub mod Choosing
pub mod Processing
pub mod Inbound
pub mod Scheduler
pub mod Reception
pub mod Hooks
pub mod Schedules
pub mod Ending
pub mod Controller
