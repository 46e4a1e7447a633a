-- ===== src/Thingdoer/Lines.antt =====
-- thingdoer/src/main.rs: what the program prints.
use Prim.Native.String.{String}
use mathlib.Core.List.{Mem}
use managed_linux_democracy.Prelude.{
  ℕ, zero, suc, ◌+◌, ◌<◌, ◌≡◌, refl, ap, arith, ◌⊎◌, inl, inr, pos, eqb_ℤ_iff, ◌≢◌, sym, subst,
  Outcome, panicked, eq_ℤ, List, [], ◌∷◌, length, All, Option-cases, none, some, returned,
}
use managed_linux_democracy.Prelude.Text.{Text}
use managed_linux_democracy.Thingdoer.Loop.{
  word_choice, sched_ext, Outside, line, chatter, second_arg, main,
}

module _ (o : Outside) where
  -- The name, one of the words and an exclamation mark.
  abbrev pub IsLine : Text → Text → Type 0
  IsLine name l = (w : String) × Mem w word_choice × (l ≡ line o name w)

  choice_of : (i : ℕ) → (w : String) × (o.choose i word_choice ≡ some w)
  choice_of i = go (Option-cases (o.choose i word_choice))
    where
      go :
          (o.choose i word_choice ≡ none) ⊎ ((w : String) × (o.choose i word_choice ≡ some w))
          → (w : String) × (o.choose i word_choice ≡ some w)
      go (inl nothing) = absurd (o.choose_some i _ _ nothing)
      go (inr found) = found

  -- `sched_yield` succeeds in `n` rounds from round `i` on.
  abbrev pub Yields : ℕ → ℕ → Type 0
  Yields zero i = Unit
  Yields (suc n) i = (o.sched_yield i ≡ pos 0) × Yields n (suc i)

  -- What `rounds` rounds from round `i` on have printed: a line each, or they have panicked in the
  -- first one whose `sched_yield` fails, after its line.
  abbrev pub Chats : Text → ℕ → ℕ → List Text × Outcome (Unit {0}) → Type 0
  Chats name i rounds (lines, returned _) =
      (length lines ≡ rounds) × Yields rounds i × All (IsLine name) lines
  Chats name i rounds (lines, panicked) =
      (k : ℕ) × (length lines ≡ suc k)
      × (k < rounds)
      × Yields k i
      × (o.sched_yield (i + k) ≢ pos 0)
      × All (IsLine name) lines

  Chats-more :
      (name : Text) (i rounds : ℕ) (w : String) (t : List Text × Outcome (Unit {0}))
      → o.choose i word_choice ≡ some w
      → o.sched_yield i ≡ pos 0
      → Chats name (suc i) rounds t
      → Chats name i (suc rounds) (line o name w ∷ t.0, t.1)
  Chats-more name i rounds w (lines, returned _) chosen y (count, yields, good) =
      (ap suc count, (y, yields), ((w, o.choose_mem i word_choice w chosen, refl), good))
  Chats-more name i rounds w (lines, panicked) chosen y (k, count, less, yields, fails, good) =
      let here : suc i + k ≡ i + suc k = omega arith in
      (
        suc k,
        ap suc count,
        omega (arith, less),
        (y, yields),
        subst (λ j. o.sched_yield j ≢ pos 0) here fails,
        ((w, o.choose_mem i word_choice w chosen, refl), good),
      )

  chatter_round :
      (rounds i : ℕ) (name : Text) (w : String)
      → o.choose i word_choice ≡ some w
      → o.sched_yield i ≡ pos 0
      → let (lines, end) = chatter o rounds (suc i) name in
        chatter o (suc rounds) i name ≡ (line o name w ∷ lines, end)
  unfolding chatter
  chatter_round rounds i name w e y =
      rw (e, chatter) (rw ((eqb_ℤ_iff (o.sched_yield i) (pos 0)).1 y, chatter))

  chatter_last :
      (rounds i : ℕ) (name : Text) (w : String)
      → o.choose i word_choice ≡ some w
      → o.sched_yield i ≢ pos 0
      → chatter o (suc rounds) i name ≡ (line o name w ∷ [], panicked)
  unfolding chatter
  chatter_last rounds i name w e y = ground (arith, eqb_ℤ_iff (o.sched_yield i) (pos 0))

  chatter-Chats : (rounds i : ℕ) (name : Text) → Chats name i rounds (chatter o rounds i name)
  unfolding chatter
  chatter-Chats zero i name = (refl, tt, tt)
  chatter-Chats (suc rounds) i name =
      let (w, chosen) = choice_of i in
      elim (eq_ℤ (o.sched_yield i) (pos 0)) [
        | yes y ↦ subst (Chats name i (suc rounds)) (sym (chatter_round rounds i name w chosen y)) (
            Chats-more name i rounds w (chatter o rounds (suc i) name) chosen y
              (chatter-Chats rounds (suc i) name))
        | no y ↦
            let here : i ≡ i + 0 = omega arith in
            subst (Chats name i (suc rounds)) (sym (chatter_last rounds i name w chosen y)) (
              0,
              refl,
              omega arith,
              tt,
              subst (λ j. o.sched_yield j ≢ pos 0) here y,
              ((w, o.choose_mem i word_choice w chosen, refl), tt),
            )
      ]

  -- Without a name on the command line, or when it cannot be put under SCHED_EXT, the program panics
  -- and prints nothing. Otherwise each round prints a line, the name with one of the words, until the
  -- first one whose `sched_yield` fails, which panics after its line.
  pub main-Chats :
      (rounds : ℕ)
      → (((second_arg o o.args ≡ none) ⊎ (o.sched_setscheduler o.pid sched_ext (pos 0) ≢ pos 0))
          × (main o rounds ≡ ([], panicked)))
        ⊎ ((name : Text) × (second_arg o o.args ≡ some name)
            × (o.sched_setscheduler o.pid sched_ext (pos 0) ≡ pos 0)
            × Chats name 0 rounds (main o rounds))
  unfolding main
  main-Chats rounds = elim (Option-cases (second_arg o o.args)) [
    | inl unnamed ↦ inl (inl unnamed, rw (unnamed, main))
    | inr (name, named) ↦ elim (eq_ℤ (o.sched_setscheduler o.pid sched_ext (pos 0)) (pos 0)) [
      | yes under ↦
          let runs : main o rounds ≡ chatter o rounds 0 name =
            rw (named, main) (rw ((eqb_ℤ_iff _ (pos 0)).1 under, main)) in
          inr (
            name,
            named,
            under,
            subst (Chats name 0 rounds) (sym runs) (chatter-Chats rounds 0 name),
          )
      | no refused ↦ inl (
        inr refused,
        ground (arith, eqb_ℤ_iff (o.sched_setscheduler o.pid sched_ext (pos 0)) (pos 0)),
      )
    ]
  ]
