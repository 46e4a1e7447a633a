-- ===== src/Scheduler/Rounds.antt =====
-- democracy-scheduler/src/main.rs: the rounds of `run` until the shutdown flag is set.
use managed_linux_democracy.Prelude.{
  ℕ, zero, suc, ◌+◌, ◌*◌, ◌^◌, ◌≤◌, ◌<◌, ◌≡◌, refl, sym, ap, ◌∙◌, inl, inr, arith, nat_eq, as_u32,
  Profile, All, All-append, length-append, List, [], ◌∷◌, ◌++◌, length, Option, none, some, ok,
  returned,
}
use mathlib.Core.List.{append-nil, append_assoc}
use managed_linux_democracy.Prelude.Map.{Map, get}
use managed_linux_democracy.Bpf.Task.{DispatchedTask}
use managed_linux_democracy.Scheduler.Competitors.{Competitors, competitors_eq}
use managed_linux_democracy.Scheduler.Connector.{Connector}
use managed_linux_democracy.Scheduler.Schedule.{Scheduler}
use managed_linux_democracy.Scheduler.Invariant.{IsWired}
use managed_linux_democracy.Scheduler.Choice.{MaySend, a_second}
use managed_linux_democracy.Scheduler.Follows.{IsTurnFor, Follows, run-Follows}
use managed_linux_democracy.Scheduler.Chain.{Chain, StopsAfter}
use managed_linux_democracy.Scheduler.Main.{World, run}

-- A tenth of a second, without flags, for a process that a competitor owns.
abbrev pub IsTurn : Map Competitors ℕ → DispatchedTask → Type 0
IsTurn owners d =
    ((w : Competitors) × (get w owners ≡ some (as_u32 d.pid)))
    × (d.flags ≡ 0)
    × (d.slice_ns ≡ 100_000_000)

-- Between two states at most `n` turns were sent, and nothing else.
pub record Turns (owners : Map Competitors ℕ) (n : ℕ) (before after : List DispatchedTask)
    : Type 0 where
  pub added : List DispatchedTask
  pub follows : after ≡ before ++ added
  pub few : length added ≤ n
  pub fair : All (IsTurn owners) added

MaySend-Turns :
    (owners : Map Competitors ℕ) (choice : Option DispatchedTask)
    (before after : List DispatchedTask)
    → ((d : DispatchedTask) → choice ≡ some d → IsTurn owners d)
    → MaySend before choice after
    → Turns owners 1 before after
MaySend-Turns owners none before after fair e = record {
  added = [];
  follows = e ∙ sym (append-nil before);
  few = omega arith;
  fair = tt;
}
MaySend-Turns owners (some d) before after fair (inl e) = record {
  added = [];
  follows = e ∙ sym (append-nil before);
  few = omega arith;
  fair = tt;
}
MaySend-Turns owners (some d) before after fair (inr e) = record {
  added = d ∷ [];
  follows = e;
  few = omega arith;
  fair = (fair d refl, tt);
}

Turns-trans :
    (owners : Map Competitors ℕ) (n : ℕ) (before between after : List DispatchedTask)
    → Turns owners 1 before between
    → Turns owners n between after
    → Turns owners (suc n) before after
Turns-trans owners n before between after x y = record {
  added = x.added ++ y.added;
  follows = y.follows ∙ ap (λ l. l ++ y.added) x.follows ∙ append_assoc before x.added y.added;
  few = omega (arith, length-append x.added y.added, x.few, y.few);
  fair = All-append (IsTurn owners) x.added y.added x.fair y.fair;
}

Follows-Turns :
    (world : World) (owners : Map Competitors ℕ) (n i : ℕ) (before after : List DispatchedTask)
    → Chain (Follows world owners) n i before after
    → Turns owners n before after
Follows-Turns world owners zero i before after e = record {
  added = [];
  follows = e ∙ sym (append-nil before);
  few = omega arith;
  fair = tt;
}
Follows-Turns world owners (suc n) i before after (between, one, others) =
    Turns-trans owners n before between after
      (MaySend-Turns owners one.choice before between (λ d h. own-IsTurn d (one.own d h)) one.sends)
      (Follows-Turns world owners n (suc i) between after others)
  where
    own-IsTurn : (d : DispatchedTask) → IsTurnFor owners (world.answer i) d → IsTurn owners d
    own-IsTurn d (w, named, owner, flags, slice) = ((w, owner), flags, slice)

module _ (p : Profile) (c : Connector) (world : World) where
  -- `run` from a state that is wired up, when the shutdown flag is set after `n` rounds: while `n`
  -- seconds more of run time overflow for no task, `run` returns `Ok` with the load at which the
  -- flag was set, and does not panic. The state is wired up with the same owners, and what was
  -- sent in the meantime is at most one turn a round, each a tenth of a second for a process that a
  -- competitor owns.
  pub run-Turns :
      (n i bound fuel : ℕ) (s : Scheduler c)
      → StopsAfter world n i
      → n < fuel
      → bound + n * a_second < 2 ^ 64
      → IsWired bound s.owner_map s.task_map
      → (s' : Scheduler c) × (run p c world fuel i s
          ≡ some (returned (record { loads = i + n; scheduler = s'; result = ok tt })))
        × IsWired (bound + n * a_second) s.owner_map s'.task_map
        × (s'.owner_map ≡ s.owner_map)
        × Turns s.owner_map n (c.sent s.bpf) (c.sent s'.bpf)
  run-Turns n i bound fuel s stops enough room w =
      let (s', ends, wired, same, all) =
        run-Follows p c world n i bound fuel s stops enough room w in
      (s', ends, wired, same, Follows-Turns world s.owner_map n i _ _ all)
