-- ===== src/Election/Reign.antt =====
-- From the votes to the CPU over many rounds: `run` (democracy-scheduler/src/main.rs) while the service
-- (ballot_box/src/main.rs) goes through its states.
use Prim.Native.String.{String}
use managed_linux_democracy.Prelude.{
  ℕ, suc, ◌+◌, ◌*◌, ◌^◌, ◌<◌, ◌≡◌, refl, sym, ◌∙◌, ◌⊎◌, inl, inr, arith, nat_eq, as_u32, Bool,
  Profile, List, [], ◌∷◌, ◌++◌, Option, none, some, ok, err, returned,
}
use managed_linux_democracy.Prelude.Map.{Map, get}
use managed_linux_democracy.Prelude.Text.{Unicode}
use managed_linux_democracy.Bpf.Task.{DispatchedTask}
use managed_linux_democracy.Bpf.Libbpf.{Libbpf}
use managed_linux_democracy.Bpf.Init.{Host}
use managed_linux_democracy.Bpf.Implements.{bpf_connector}
use managed_linux_democracy.Ballot.State.{AppContext}
use managed_linux_democracy.Ballot.Handler.{votes_handler}
use managed_linux_democracy.Scheduler.Competitors.{Competitors, competitors_eq}
use managed_linux_democracy.Scheduler.Winner.{WinnerError, received, get_current_winner}
use managed_linux_democracy.Scheduler.Schedule.{Scheduler}
use managed_linux_democracy.Scheduler.Choice.{MaySend, a_second}
use managed_linux_democracy.Scheduler.Main.{World, run}
use managed_linux_democracy.Scheduler.Follows.{IsTurnFor, Follows, run-Follows}
use managed_linux_democracy.Scheduler.Chain.{Chain, Chain-map, StopsAfter}
use managed_linux_democracy.Scheduler.Start.{start}
use managed_linux_democracy.Scheduler.Owners.{OwnsLaunched}
use managed_linux_democracy.Scheduler.Ready.{start-ok}
use managed_linux_democracy.Election.{Json, elected, get_current_winner-votes_handler}
use managed_linux_democracy.Election.Turns.{leader}

-- One round sends nothing, or a turn of a tenth of a second for the process of the side that leads.
abbrev pub Obeys :
    Map Competitors ℕ → Option Competitors → List DispatchedTask → List DispatchedTask → Type 0
Obeys owners led before after =
    (after ≡ before)
    ⊎ ((w : Competitors) × (d : DispatchedTask) × (led ≡ some w)
        × (after ≡ before ++ d ∷ [])
        × (get w owners ≡ some (as_u32 d.pid))
        × (d.flags ≡ 0)
        × (d.slice_ns ≡ 100_000_000))

-- What the load `i` leads to, where `led i` leads when its question is asked.
abbrev pub Reigns :
    (ℕ → Option Competitors)
    → Map Competitors ℕ
    → ℕ
    → List DispatchedTask
    → List DispatchedTask
    → Type 0
Reigns led owners i = Obeys owners (led i)

-- Each answer is that of the service in its state, or the question failed.
abbrev pub Polls : Unicode → Json → (ℕ → AppContext) → World → Type 0
Polls u j a world =
    (i : ℕ)
    → (world.answer i ≡ get_current_winner u j.decode (received (j.encode (votes_handler (a i)))))
      ⊎ ((e : WinnerError) × (world.answer i ≡ err e))

elected-leader :
    (a : AppContext) (w : Competitors)
    → elected a.summer1_votes a.summer2_votes ≡ ok w
    → leader a ≡ some w
elected-leader a w h = ground arith

module _ (u : Unicode) (j : Json) (a : ℕ → AppContext) (world : World)
    (polls : Polls u j a world) where
  answer-leader : (i : ℕ) (w : Competitors) → world.answer i ≡ ok w → leader (a i) ≡ some w
  answer-leader i w named = elim (polls i) [
    | inl asked ↦
        elected-leader (a i) w
          (sym (get_current_winner-votes_handler u j (a i)) ∙ sym asked ∙ named)
    | inr (e, failed) ↦ absurd (cc)
  ]

  Step-Obeys :
      (owners : Map Competitors ℕ) (i : ℕ) (before after : List DispatchedTask)
      → (choice : Option DispatchedTask)
      → ((d : DispatchedTask) → choice ≡ some d → IsTurnFor owners (world.answer i) d)
      → MaySend before choice after
      → Obeys owners (leader (a i)) before after
  Step-Obeys owners i before after none own sends = inl sends
  Step-Obeys owners i before after (some d) own (inl failed) = inl failed
  Step-Obeys owners i before after (some d) own (inr sent) =
      let (w, named, owner, flags, slice) = own d refl in
      inr (w, d, answer-leader i w named, sent, owner, flags, slice)

  Follows-Reigns :
      (owners : Map Competitors ℕ) (i : ℕ) (before after : List DispatchedTask)
      → Follows world owners i before after
      → Reigns (λ k. leader (a k)) owners i before after
  Follows-Reigns owners i before after one =
      Step-Obeys owners i before after one.choice one.own one.sends

  -- `main` reaches its loop, Ctrl-C sets the flag after `n` rounds, before `n` seconds of run time
  -- overflow, and each answer is that of the service in its state at the time, unless the question
  -- fails: then the first call of `run` returns after those rounds, each of which has sent nothing or
  -- one turn of a tenth of a second for the process launched for the side that led when it asked.
  pub start-Reigns :
      (p : Profile) (l : Libbpf) (host : Host l) (n : ℕ) (handler : Bool) (topology : Option ℕ)
      (spawn : String → String → Option ℕ) (s : Scheduler (bpf_connector l))
      → (start p l host handler topology spawn).1 ≡ returned (ok s)
      → StopsAfter world n 0
      → n * a_second < 2 ^ 64
      → OwnsLaunched spawn s.owner_map
        × (s' : Scheduler (bpf_connector l)) × (run p (bpf_connector l) world (suc n) 0 s
            ≡ some (returned (record { loads = 0 + n; scheduler = s'; result = ok tt })))
        × Chain
            (Reigns (λ k. leader (a k)) s.owner_map)
            n
            0
            ((bpf_connector l).sent s.bpf)
            ((bpf_connector l).sent s'.bpf)
  start-Reigns p l host n handler topology spawn s started stops room =
      let (nr, handled, found, attached, wired, owned) =
        start-ok p l host handler topology spawn s started in
      let (s', ends, wired', same, all) =
        run-Follows p (bpf_connector l) world n 0 0 (suc n) s stops (omega arith) (omega arith)
          wired in
      (
        owned,
        s',
        ends,
        Chain-map (λ (d : List DispatchedTask). d) n (Follows world s.owner_map)
            (Reigns (λ k. leader (a k)) s.owner_map)
            (λ i before after below. Follows-Reigns s.owner_map i before after) n 0
            ((bpf_connector l).sent s.bpf) ((bpf_connector l).sent s'.bpf) (omega arith) all,
      )
