-- ===== src/Scheduler/Owners.antt =====
-- democracy-scheduler/src/main.rs: whose process is whose, once `main` has launched both.
use Prim.Native.String.{String}
use managed_linux_democracy.Prelude.{ℕ, ◌≡◌, ◌∙◌, Option, some}
use managed_linux_democracy.Prelude.Map.{Map, get, insert, get-insert, get-insert_self}
use managed_linux_democracy.Scheduler.Competitors.{Competitors, summer1, summer2, competitors_eq}
use managed_linux_democracy.Scheduler.Connector.{Connector}
use managed_linux_democracy.Scheduler.Schedule.{Scheduler}
use managed_linux_democracy.Scheduler.Main.{register}

-- The name that the process of a side is given on its command line.
abbrev process_name : Competitors → String
process_name summer1 = "summer1"
process_name summer2 = "summer2"

-- Each side owns the pid that the launch of `thingdoer` with its name has given.
abbrev pub OwnsLaunched : (String → String → Option ℕ) → Map Competitors ℕ → Type 0
OwnsLaunched spawn owners =
    (w : Competitors)
    → (pid : ℕ) × (spawn "thingdoer" (process_name w) ≡ some pid) × (get w owners ≡ some pid)

pub register-OwnsLaunched :
    (c : Connector) (spawn : String → String → Option ℕ) (a b : ℕ) (s : Scheduler c)
    → spawn "thingdoer" "summer1" ≡ some a
    → spawn "thingdoer" "summer2" ≡ some b
    → OwnsLaunched spawn (register c a b s).owner_map
unfolding register
register-OwnsLaunched c spawn a b s first second summer1 = (
  a,
  first,
  get-insert summer1 summer2 b (insert summer1 a s.owner_map)
      ∙ get-insert_self summer1 a s.owner_map,
)
register-OwnsLaunched c spawn a b s first second summer2 =
    (b, second, get-insert_self summer2 b (insert summer1 a s.owner_map))
