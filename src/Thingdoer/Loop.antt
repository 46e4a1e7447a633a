-- ===== src/Thingdoer/Loop.antt =====
-- thingdoer/src/main.rs: `main`. The crates `rand` and `colored` and the system calls stand outside.
use Prim.Native.String.{String}
use mathlib.Core.List.{Mem}
use managed_linux_democracy.Prelude.{
  ℕ, zero, suc, ◌≡◌, ◌≢◌, if◌then◌else◌, ℤ, pos, eqb_ℤ, List, [], ◌∷◌, ◌++◌, Option, none, some,
  Outcome, returned, panicked,
}
use managed_linux_democracy.Prelude.Text.{Text, codes}

abbrev pub word_choice : List String
word_choice =
    "is the best ever" ∷ "are all flawless programmers" ∷ "are 100x engineers" ∷ "are 10x engineers"
    ∷ "are the absolute kindest" ∷ "are all future presidents" ∷ "are truly inspiring"
    ∷ "make the world a better place" ∷ "are incredibly talented"
    ∷ "are the heart and soul of the team" ∷ "have the best ideas" ∷ "are unstoppable"
    ∷ "bring joy to everyone around them" ∷ "are the definition of excellence" ∷ "make magic happen"
    ∷ "are shining examples of greatness" ∷ "are a dream team" ∷ "are heroes in disguise"
    ∷ "have a bright future ahead" ∷ "are simply the best" ∷ []

-- `SCHED_EXT`
abbrev pub sched_ext : ℤ
sched_ext = pos 7

-- What `main` asks of the outside, the calls of a round by the round's number: the command line, the
-- process, the system calls, the choice of `rand` and the colouring of `colored`.
pub record Outside : Type 0 where
  pub args : List Text
  pub pid : ℤ
  pub sched_setscheduler : ℤ → ℤ → ℤ → ℤ
  pub sched_yield : ℕ → ℤ
  pub choose : ℕ → List String → Option String
  pub yellow : Text → Text
  -- `choose` picks one of the words, if there is one.
  pub choose_some : (i : ℕ) (w : String) (ws : List String) → choose i (w ∷ ws) ≢ none
  pub choose_mem : (i : ℕ) (ws : List String) (w : String) → choose i ws ≡ some w → Mem w ws

module _ (o : Outside) where
  abbrev pub line : Text → String → Text
  line name choice = o.yellow name ++ (codes " " ++ (codes choice ++ codes "!"))

  -- `rounds` rounds of the loop from round `i` on: the lines that they print, and whether one of them
  -- panics; the program itself has no last round.
  unfoldable pub chatter : ℕ → ℕ → Text → List Text × Outcome (Unit {0})
  chatter zero i name = ([], returned tt)
  chatter (suc rounds) i name =
      let (lines, end) = chatter rounds (suc i) name in
      elim (o.choose i word_choice) [
        | none ↦ ([], panicked)
        | some choice ↦
            if eqb_ℤ (o.sched_yield i) (pos 0)
            then (line name choice ∷ lines, end)
            else (line name choice ∷ [], panicked)
      ]

  -- `args[1]`
  abbrev pub second_arg : List Text → Option Text
  second_arg [] = none
  second_arg (_ ∷ []) = none
  second_arg (_ ∷ name ∷ _) = some name

  unfoldable pub main : ℕ → List Text × Outcome (Unit {0})
  unfolding chatter
  main rounds = elim (second_arg o.args) [
    | none ↦ ([], panicked)
    | some name ↦
        if eqb_ℤ (o.sched_setscheduler o.pid sched_ext (pos 0)) (pos 0)
        then chatter rounds 0 name
        else ([], panicked)
  ]
