-- ===== src/Scheduler.antt =====
-- democracy-scheduler/src/main.rs: the scheduler that runs the process of the side with most votes.
pub mod Competitors
pub mod Winner
pub mod Connector
pub mod Drain
pub mod Entries
pub mod Arrivals
pub mod Schedule
pub mod Invariant
pub mod Choice
pub mod Decision
pub mod Main
pub mod Logger
pub mod Start
pub mod Ready
pub mod Chain
pub mod Follows
pub mod Rounds
pub mod Charges
pub mod Ledger
pub mod Script
pub mod Accounts
pub mod Repeats
pub mod Owners
pub mod Progress
pub mod Governing
pub mod Shutdown
pub mod Teardown
pub mod Whole
