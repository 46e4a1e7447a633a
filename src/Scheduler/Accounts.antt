-- ===== src/Scheduler/Accounts.antt =====
-- democracy-scheduler/src/main.rs: the rounds of `run`, with what each has met, and the run times that
-- they leave.
use mathlib.Core.Option
use managed_linux_democracy.Prelude.{ℕ, suc, ◌≡◌, nat_eq, Profile, [], ◌∷◌, Option, some, returned}
use managed_linux_democracy.Prelude.Map.{Map, get}
use managed_linux_democracy.Scheduler.Competitors.{Competitors, competitors_eq}
use managed_linux_democracy.Scheduler.Connector.{Connector}
use managed_linux_democracy.Scheduler.Schedule.{Scheduler}
use managed_linux_democracy.Scheduler.Script.{Sent}
use managed_linux_democracy.Scheduler.Chain.{Chain}
use managed_linux_democracy.Scheduler.Ledger.{History, account}
use managed_linux_democracy.Scheduler.Entries.{waiting}
use managed_linux_democracy.Scheduler.Main.{World, round}

module _ (p : Profile) (c : Connector) (world : World) where
  -- From one state to another, by rounds that have met this history, from the load `i` on.
  abbrev pub Met : History → ℕ → Scheduler c → Scheduler c → Type 0
  Met [] i s s' = s' ≡ s
  Met ((q, a) ∷ h) i s s' =
      (t : Scheduler c) × (c.queue s.bpf ≡ q)
      × (world.answer i ≡ a)
      × (round p c world i s ≡ some (returned t))
      × Met h (suc i) t s'

  -- A history that the rounds have met leaves these entries, and these turns sent.
  record Accounted (owners : Map Competitors ℕ) (h : History) (i : ℕ) (s s' : Scheduler c)
      : Type 0 where
    met : Met h i s s'
    entries :
        (pid : ℕ) → get pid s'.task_map ≡ Option.map (account owners pid h) (get pid s.task_map)
    sent : Sent owners (waiting s.task_map) h (c.sent s.bpf) (c.sent s'.bpf)
