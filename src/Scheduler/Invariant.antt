-- ===== src/Scheduler/Invariant.antt =====
-- democracy-scheduler/src/main.rs: what `main` sets up and every call of `schedule` keeps, so that
-- neither `unwrap` panics and nothing but the winner's own task is dispatched.
use managed_linux_democracy.Prelude.{
  ℕ, ◌≤◌, ◌≡◌, sym, ap, ◌∙◌, subst, arith, if◌then◌else◌, eqb, nat_eq, as_u32, List, [], ◌∷◌,
  Option, none, some,
}
use managed_linux_democracy.Prelude.Map.{Map, get, insert, get-insert}
use managed_linux_democracy.Bpf.Task.{QueuedTask}
use managed_linux_democracy.Scheduler.Competitors.{Competitors, competitors_eq}
use managed_linux_democracy.Scheduler.Connector.{Arrival, task, failure}
use managed_linux_democracy.Scheduler.Drain.{Task, TaskMap, fresh, latest, tracked}

-- A task stands under its own pid, and has run for `bound` nanoseconds at most.
abbrev pub Belongs : ℕ → ℕ → Option Task → Type 0
Belongs bound pid none = Unit
Belongs bound pid (some t) = (as_u32 t.queued_task.pid ≡ pid) × (t.vruntime ≤ bound)

abbrev pub Entry : ℕ → ℕ → Option (Option Task) → Type 0
Entry bound pid none = Unit
Entry bound pid (some o) = Belongs bound pid o

-- Both competitors own a pid, and it is a key of the task map.
pub record IsWired (bound : ℕ) (owner_map : Map Competitors ℕ) (task_map : TaskMap) : Type 0 where
  pub owned :
      (w : Competitors)
      → (pid : ℕ) × (o : Option Task) × (get w owner_map ≡ some pid) × (get pid task_map ≡ some o)
  pub entries : (pid : ℕ) → Entry bound pid (get pid task_map)

Belongs-fresh :
    (bound pid : ℕ) (t : QueuedTask) (old : Option Task)
    → Belongs bound pid old
    → Belongs bound pid (if eqb pid (as_u32 t.pid) then some (fresh t) else old)
Belongs-fresh bound pid t old h = ground arith

Belongs-latest :
    (bound pid : ℕ) (q : List Arrival) (old : Option Task)
    → Belongs bound pid old
    → Belongs bound pid (latest pid q old)
Belongs-latest bound pid [] old h = h
Belongs-latest bound pid (task t ∷ q) old h =
    Belongs-latest bound pid q _ (Belongs-fresh bound pid t old h)
Belongs-latest bound pid (failure x ∷ q) old h = Belongs-latest bound pid q old h

pub Entry-tracked :
    (bound pid : ℕ) (q : List Arrival) (o : Option (Option Task))
    → Entry bound pid o
    → Entry bound pid (tracked pid q o)
Entry-tracked bound pid q none h = tt
Entry-tracked bound pid q (some old) h = Belongs-latest bound pid q old h

-- The first loop keeps it.
pub tracked-IsWired :
    (bound : ℕ) (owners : Map Competitors ℕ) (m m' : TaskMap) (q : List Arrival)
    → ((pid : ℕ) → get pid m' ≡ tracked pid q (get pid m))
    → IsWired bound owners m
    → IsWired bound owners m'
tracked-IsWired bound owners m m' q same w = record {
  owned = λ x.
      let (pid, o, owner, entry) = w.owned x in
      (pid, latest pid q o, owner, same pid ∙ ap (tracked pid q) entry);
  entries = λ pid.
      subst (Entry bound pid) (sym (same pid))
        (Entry-tracked bound pid q (get pid m) (w.entries pid));
}

Belongs-mono :
    (bound bound' pid : ℕ) (o : Option (Option Task))
    → bound ≤ bound'
    → Entry bound pid o
    → Entry bound' pid o
Belongs-mono bound bound' pid o h e = ground arith

pub IsWired-mono :
    (bound bound' : ℕ) (owners : Map Competitors ℕ) (m : TaskMap)
    → bound ≤ bound'
    → IsWired bound owners m
    → IsWired bound' owners m
IsWired-mono bound bound' owners m h w = record {
  owned = w.owned;
  entries = λ pid. Belongs-mono bound bound' pid (get pid m) h (w.entries pid);
}

-- So does a longer run time for a task.
pub insert-IsWired :
    (bound bound' : ℕ) (owners : Map Competitors ℕ) (m : TaskMap) (pid : ℕ) (t : Task)
    → bound ≤ bound'
    → Belongs bound' pid (some t)
    → IsWired bound owners m
    → IsWired bound' owners (insert pid (some t) m)
insert-IsWired bound bound' owners m pid t h b w = record {
  owned = λ x.
      let (own, o, owner, entry) = w.owned x in
      (
        own,
        (if eqb own pid then some t else o),
        owner,
        get-insert own pid (some t) m ∙ ground arith,
      );
  entries = λ j.
      subst (Entry bound' j) (sym (get-insert j pid (some t) m))
        (ground (arith, Belongs-mono bound bound' j (get j m) h (w.entries j)));
}
