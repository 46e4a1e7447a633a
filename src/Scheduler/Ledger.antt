-- ===== src/Scheduler/Ledger.antt =====
-- democracy-scheduler/src/main.rs: what `vruntime` holds after any number of rounds, by what the
-- rounds have met.
use managed_linux_democracy.Prelude.{
  ℕ, ◌+◌, ◌*◌, ◌^◌, ◌<◌, ◌≡◌, refl, ap, ◌∙◌, arith, nat_eq, Bool, false, ◌||◌, if◌then◌else◌, eqb,
  as_u32, Bool-cases, List, [], ◌∷◌, Option, none, some, Result, ok, err, inl, inr,
}
use managed_linux_democracy.Prelude.Map.{Map, get}
use managed_linux_democracy.Bpf.Task.{QueuedTask}
use managed_linux_democracy.Scheduler.Competitors.{Competitors, competitors_eq}
use managed_linux_democracy.Scheduler.Winner.{WinnerError}
use managed_linux_democracy.Scheduler.Connector.{Arrival, task, failure}
use managed_linux_democracy.Scheduler.Drain.{Task, fresh, latest}
use managed_linux_democracy.Scheduler.Choice.{a_second}
use managed_linux_democracy.Scheduler.Charges.{charged}

abbrev pub Answer : Type 0
Answer = Result Competitors WinnerError

-- What each round meets: the queue that it finds, and the answer to its question.
abbrev pub History : Type 0
History = List (List Arrival × Answer)

-- The last task of a pid in a queue, or else the one that was there.
abbrev pub newest : ℕ → List Arrival → Option QueuedTask → Option QueuedTask
newest pid [] o = o
newest pid (task t ∷ q) o = newest pid q (if eqb pid (as_u32 t.pid) then some t else o)
newest pid (failure _ ∷ q) o = newest pid q o

abbrev pub arrives : ℕ → List Arrival → Bool
arrives pid [] = false
arrives pid (task t ∷ q) = eqb pid (as_u32 t.pid) || arrives pid q
arrives pid (failure _ ∷ q) = arrives pid q

-- The answer names the competitor that owns the pid.
abbrev pub wins : Map Competitors ℕ → ℕ → Answer → Bool
wins owners pid (err _) = false
wins owners pid (ok w) = elim (get w owners) [ none ↦ false | some own ↦ eqb pid own ]

abbrev pub last_task : ℕ → History → Option QueuedTask → Option QueuedTask
last_task pid [] o = o
last_task pid ((q, _) ∷ h) o = last_task pid h (newest pid q o)

abbrev pub arrived : ℕ → History → Bool
arrived pid [] = false
arrived pid ((q, _) ∷ h) = arrives pid q || arrived pid h

-- The rounds that the owner of a pid has won since a task of the pid has last arrived.
abbrev pub rounds_won : Map Competitors ℕ → ℕ → History → ℕ
rounds_won owners pid [] = 0
rounds_won owners pid ((q, a) ∷ h) =
    (if arrived pid h then 0 else if wins owners pid a then 1 else 0) + rounds_won owners pid h

abbrev pub queued : Option Task → Option QueuedTask
queued none = none
queued (some t) = some t.queued_task

abbrev pub run_time : Option Task → ℕ
run_time none = 0
run_time (some t) = t.vruntime

abbrev pub entry : Option QueuedTask → ℕ → Option Task
entry none n = none
entry (some t) n = some (record { vruntime = n; queued_task = t })

-- What a pid has after the rounds: its last task, with a second of run time for each round that its
-- owner has won since this task arrived, and what it had before if none has arrived.
abbrev pub account : Map Competitors ℕ → ℕ → History → Option Task → Option Task
account owners pid h old =
    entry (last_task pid h (queued old))
      ((if arrived pid h then 0 else run_time old) + rounds_won owners pid h * a_second)

pub account-nil :
    (owners : Map Competitors ℕ) (pid : ℕ) (o : Option Task) → account owners pid [] o ≡ o
account-nil owners pid none = refl
account-nil owners pid (some t) = ground arith

-- A second more for a task that is there.
abbrev pub bill : Bool → Option Task → Option Task
bill b none = none
bill b (some t) = some (if b then record t { vruntime = t.vruntime + a_second } else t)

pub queued-latest :
    (pid : ℕ) (q : List Arrival) (o : Option Task)
    → queued (latest pid q o) ≡ newest pid q (queued o)
queued-latest pid [] o = refl
queued-latest pid (task t ∷ q) o = elim (Bool-cases (eqb pid (as_u32 t.pid))) [
  | inl own ↦ rw own (queued-latest pid q (some (fresh t)))
  | inr other ↦ rw other (queued-latest pid q o)
]
queued-latest pid (failure x ∷ q) o = queued-latest pid q o

run_time-latest :
    (pid : ℕ) (q : List Arrival) (o : Option Task)
    → run_time (latest pid q o) ≡ (if arrives pid q then 0 else run_time o)
run_time-latest pid [] o = refl
run_time-latest pid (task t ∷ q) o = elim (Bool-cases (eqb pid (as_u32 t.pid))) [
  | inl own ↦ rw own (run_time-latest pid q (some (fresh t)) ∙ ground arith)
  | inr other ↦ rw other (run_time-latest pid q o)
]
run_time-latest pid (failure x ∷ q) o = run_time-latest pid q o

newest-idle :
    (pid : ℕ) (q : List Arrival) (o : Option QueuedTask)
    → arrives pid q ≡ false
    → newest pid q o ≡ o
newest-idle pid [] o e = refl
newest-idle pid (task t ∷ q) o e = elim (Bool-cases (eqb pid (as_u32 t.pid))) [
  | inl own ↦ absurd (ground arith)
  | inr other ↦ rw other (newest-idle pid q o (rw other at e))
]
newest-idle pid (failure x ∷ q) o e = newest-idle pid q o e

last_task-idle :
    (pid : ℕ) (h : History) (o : Option QueuedTask) → arrived pid h ≡ false → last_task pid h o ≡ o
last_task-idle pid [] o e = refl
last_task-idle pid ((q, a) ∷ h) o e = elim (Bool-cases (arrives pid q)) [
  | inl here ↦ absurd (ground arith)
  | inr idle ↦
      ap (last_task pid h) (newest-idle pid q o idle) ∙ last_task-idle pid h o (rw idle at e)
]

-- A bill before further rounds is a round that is won.
account-bill :
    (owners : Map Competitors ℕ) (pid : ℕ) (b : Bool) (h : History) (o : Option Task)
    → account owners pid h (bill b o)
      ≡ entry (last_task pid h (queued o)) (
          (if arrived pid h then 0 else run_time o)
          + ((if arrived pid h then 0 else if b then 1 else 0) + rounds_won owners pid h)
            * a_second)
account-bill owners pid b h none = elim (Bool-cases (arrived pid h)) [
  | inl later ↦ rw later (ground arith)
  | inr idle ↦ rw idle (rw (last_task-idle pid h none idle) refl)
]
account-bill owners pid b h (some t) = ground arith

-- One more round.
pub account-round :
    (owners : Map Competitors ℕ) (pid : ℕ) (q : List Arrival) (a : Answer) (h : History)
    (old : Option Task)
    → account owners pid h (bill (wins owners pid a) (latest pid q old))
      ≡ account owners pid ((q, a) ∷ h) old
account-round owners pid q a h old =
    account-bill owners pid (wins owners pid a) h (latest pid q old)
    ∙ rw (queued-latest pid q old) (rw (run_time-latest pid q old) (ground arith))

pub charged-bill :
    (owners : Map Competitors ℕ) (pid : ℕ) (a : Answer) (o : Option Task)
    → run_time o + a_second < 2 ^ 64
    → charged a owners pid (some o) ≡ some (bill (wins owners pid a) o)
charged-bill owners pid (err e) none room = refl
charged-bill owners pid (err e) (some t) room = refl
charged-bill owners pid (ok w) none room = ground arith
charged-bill owners pid (ok w) (some t) room = ground arith
