-- ===== src/Tests/Accounts.antt =====
-- The rounds of `run` and the run times that they leave, at a concrete queue.
use mathlib.Core.Option
use managed_linux_democracy.Prelude.{nat_eq}
use managed_linux_democracy.Scheduler.Schedule.{Scheduler}
