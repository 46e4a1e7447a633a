-- ===== src/Tests/Teardown.antt =====
-- A start of the scheduler whose second process cannot be launched.
use Prim.Native.String.{String}
use managed_linux_democracy.Prelude.{
  ℕ, ◌≡◌, refl, true, false, if◌then◌else◌, dev, [], ◌∷◌, Option, none, some, panicked,
}
use managed_linux_democracy.Prelude.Text.{codes, text_eqb}
use managed_linux_democracy.Bpf.Init.{attach_and_build, use_sched_ext, build}
use managed_linux_democracy.Bpf.Init as Connection
use managed_linux_democracy.Bpf.Connection.{take_struct_ops}
use managed_linux_democracy.Bpf.Lifetime.{drop}
use managed_linux_democracy.Scheduler.Main.{launch, launch_process}
use managed_linux_democracy.Scheduler.Start.{scheduler_init, start}
use managed_linux_democracy.Scheduler.Teardown.{Settled, start-Settled}
use managed_linux_democracy.Tests.Kernel.{lists}
use managed_linux_democracy.Tests.Links.{silent, shut_twice}
use managed_linux_democracy.Tests.Whole.{machine}

abbrev first_only : String → String → Option ℕ
first_only bin_name name = if text_eqb (codes name) (codes "summer1") then some 10 else none

-- The link that was made is released, and the memory unlocked.
start-first_only :
    start dev lists machine true (some 4) first_only
    ≡ (record { attached = tt ∷ []; released = tt ∷ []; memory_locked = false }, panicked)
unfolding start scheduler_init Connection.init attach_and_build use_sched_ext launch launch_process
    text_eqb build drop take_struct_ops
start-first_only = refl

start-Settled_example :
    Settled lists machine silent shut_twice (start dev lists machine true (some 4) first_only)
start-Settled_example = start-Settled dev lists machine silent shut_twice true (some 4) first_only
