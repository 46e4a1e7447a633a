-- ===== src/Scheduler/Entries.antt =====
-- democracy-scheduler/src/main.rs: what one round enters into the accounts of its tasks, and what it
-- sends.
use mathlib.Core.Option
use managed_linux_democracy.Prelude.{
  ℕ, suc, ◌+◌, ◌^◌, ◌≤◌, ◌<◌, ◌≡◌, refl, sym, ap, ◌∙◌, subst, fun_ext, arith, Bool, nat_eq, Profile,
  List, length, Option, none, some, ok, err, returned,
}
use managed_linux_democracy.Prelude.Map.{Map, get}
use managed_linux_democracy.Scheduler.Competitors.{Competitors, competitors_eq}
use managed_linux_democracy.Scheduler.Connector.{Connector, Arrival}
use managed_linux_democracy.Scheduler.Drain.{Task, TaskMap, latest, tracked}
use managed_linux_democracy.Scheduler.Schedule.{Scheduler}
use managed_linux_democracy.Scheduler.Invariant.{Entry, IsWired, Entry-tracked}
use managed_linux_democracy.Scheduler.Choice.{a_second, MaySend, Sends-MaySend}
use managed_linux_democracy.Scheduler.Decision.{schedule-Goes}
use managed_linux_democracy.Scheduler.Script.{
  Waiting, after_queue, decision, chosen-decision, queued-tracked,
}
use managed_linux_democracy.Scheduler.Charges.{charged, schedule-charges}
use managed_linux_democracy.Scheduler.Chain.{Visit}
use managed_linux_democracy.Scheduler.Follows.{Wired}
use managed_linux_democracy.Scheduler.Ledger.{
  Answer, wins, run_time, bill, charged-bill, newest, queued, queued-latest,
}
use managed_linux_democracy.Scheduler.Main.{World, round}

-- A round's part in the account of one pid.
abbrev pub entered : Map Competitors ℕ → List Arrival → Answer → ℕ → Option Task → Option Task
entered owners q a pid old = bill (wins owners pid a) (latest pid q old)

charged_unknown :
    (owners : Map Competitors ℕ) (pid : ℕ) (a : Answer) → charged a owners pid none ≡ none
charged_unknown owners pid (err e) = refl
charged_unknown owners pid (ok w) = ground arith

run_time-le : (bound pid : ℕ) (o : Option Task) → Entry bound pid (some o) → run_time o ≤ bound
run_time-le bound pid none h = omega arith
run_time-le bound pid (some t) h = h.1

charged-entered :
    (owners : Map Competitors ℕ) (bound pid : ℕ) (q : List Arrival) (a : Answer)
    (o : Option (Option Task))
    → bound + a_second < 2 ^ 64
    → Entry bound pid o
    → charged a owners pid (tracked pid q o) ≡ Option.map (entered owners q a pid) o
charged-entered owners bound pid q a none room h = charged_unknown owners pid a
charged-entered owners bound pid q a (some old) room h =
    let within =
      run_time-le bound pid (latest pid q old) (Entry-tracked bound pid q (some old) h) in
    charged-bill owners pid a (latest pid q old) (omega (arith, within))

queued-bill : (b : Bool) (o : Option Task) → queued (bill b o) ≡ queued o
queued-bill b none = refl
queued-bill b (some t) = ground arith

pub queued-entered :
    (owners : Map Competitors ℕ) (q : List Arrival) (a : Answer) (pid : ℕ)
    (o : Option (Option Task))
    → Option.map queued (Option.map (entered owners q a pid) o)
      ≡ Option.map (newest pid q) (Option.map queued o)
queued-entered owners q a pid none = refl
queued-entered owners q a pid (some old) =
    ap some (queued-bill (wins owners pid a) (latest pid q old) ∙ queued-latest pid q old)

-- The tasks that a map has.
abbrev pub waiting : TaskMap → Waiting
waiting m pid = Option.map queued (get pid m)

module _ (p : Profile) (c : Connector) (world : World) where
  -- One round, with what it enters under each pid, and what it sends.
  pub record Enters (owners : Map Competitors ℕ) (i : ℕ) (s s' : Scheduler c) : Type 0 where
    pub done : round p c world i s ≡ some (returned s')
    pub entries :
        (pid : ℕ)
        → get pid s'.task_map
          ≡ Option.map (entered owners (c.queue s.bpf) (world.answer i) pid) (get pid s.task_map)
    pub sends :
        MaySend
          (c.sent s.bpf)
          (decision (world.answer i) owners (after_queue (c.queue s.bpf) (waiting s.task_map)))
          (c.sent s'.bpf)

  round-Enters :
      (i bound : ℕ) (s : Scheduler c)
      → bound + a_second < 2 ^ 64
      → IsWired bound s.owner_map s.task_map
      → (s' : Scheduler c) × (s'.owner_map ≡ s.owner_map)
        × IsWired (bound + a_second) s.owner_map s'.task_map
        × Enters s.owner_map i s s'
  unfolding round
  round-Enters i bound s room w =
      let q : List Arrival = c.queue s.bpf in
      let a : Answer = world.answer i in
      let (s', done, wired, same, sends, told) =
        schedule-Goes p c (suc (length q)) bound a s (omega arith) room w in
      (
        s',
        same,
        subst (λ owners. IsWired (bound + a_second) owners s'.task_map) same wired,
        record {
          done = done;
          entries = λ pid.
              (schedule-charges p c (suc (length q)) a s s' pid (omega arith) done).0
              ∙ charged-entered s.owner_map bound pid q a (get pid s.task_map) room (w.entries pid);
          sends =
              subst (λ choice. MaySend (c.sent s.bpf) choice (c.sent s'.bpf))
                (chosen-decision a s.owner_map (λ pid. tracked pid q (get pid s.task_map))
                  ∙ ap (decision a s.owner_map)
                      (fun_ext (λ pid. queued-tracked pid q (get pid s.task_map))))
                (Sends-MaySend c (c.sent s.bpf) _ s'.bpf sends);
        },
      )

  pub each-Enters :
      (owners : Map Competitors ℕ) (last : ℕ)
      → Visit p c world last (Wired p c world owners) (Enters owners)
  each-Enters owners last i bound s before room (own, w) =
      let (s', same, wired, one) =
        round-Enters i bound s room (subst (λ m. IsWired bound m s.task_map) (sym own) w) in
      (
        s',
        one.done,
        (same ∙ own, subst (λ m. IsWired (bound + a_second) m s'.task_map) own wired),
        subst (λ m. Enters m i s s') own one,
      )
