-- ===== src/Scheduler/Chain.antt =====
-- democracy-scheduler/src/main.rs: induction over the rounds of `run` until the shutdown flag is set.
use managed_linux_democracy.Prelude.{
  ℕ, zero, suc, ◌+◌, ◌*◌, ◌^◌, ◌≤◌, ◌<◌, ◌≡◌, refl, sym, ap, ◌∙◌, subst, arith, nat_eq, true, false,
  Profile, List, some, ok, returned,
}
use managed_linux_democracy.Bpf.Task.{DispatchedTask}
use managed_linux_democracy.Scheduler.Competitors.{competitors_eq}
use managed_linux_democracy.Scheduler.Connector.{Connector}
use managed_linux_democracy.Scheduler.Schedule.{Scheduler}
use managed_linux_democracy.Scheduler.Choice.{a_second}
use managed_linux_democracy.Scheduler.Main.{World, round, run}

-- Between two states, or two views of them, lie `n` rounds from the load `i` on, of which each has
-- done what `Did` says of its load.
abbrev pub Chain : {S : Type 0} → (ℕ → S → S → Type 0) → ℕ → ℕ → S → S → Type 0
Chain Did zero i before after = after ≡ before
Chain {S} Did (suc n) i before after =
    (between : S) × Did i before between × Chain Did n (suc i) between after

-- What each round before the load `last` has done, as seen through a view of the states.
pub Chain-map :
    {S T : Type 0} (view : S → T) (last : ℕ) (Did : ℕ → S → S → Type 0) (Also : ℕ → T → T → Type 0)
    → ((i : ℕ) (before after : S)
        → i < last
        → Did i before after
        → Also i (view before) (view after))
    → (n i : ℕ) (before after : S) → i + n ≤ last
    → Chain Did n i before after
    → Chain Also n i (view before) (view after)
Chain-map view last Did Also each zero i before after ends e = ap view e
Chain-map view last Did Also each (suc n) i before after ends (between, one, others) = (
  view between,
  each i before between (omega arith) one,
  Chain-map view last Did Also each n (suc i) between after (omega arith) others,
)

module _ (world : World) where
  -- The flag is loaded unset `n` times from load `i` on, and set the next time.
  pub record StopsAfter (n i : ℕ) : Type 0 where
    pub before : (k : ℕ) → k < n → world.shutdown (i + k) ≡ false
    pub then_set : world.shutdown (i + n) ≡ true

  pub StopsAfter-suc : (n i : ℕ) → StopsAfter (suc n) i → StopsAfter n (suc i)
  StopsAfter-suc n i h = record {
    before = λ k below.
        let same : i + suc k ≡ suc i + k = omega arith in
        subst (λ j. world.shutdown j ≡ false) same (h.before (suc k) (omega arith));
    then_set =
        let same : i + suc n ≡ suc i + n = omega arith in
        subst (λ j. world.shutdown j ≡ true) same h.then_set;
  }

module _ (p : Profile) (c : Connector) (world : World) where
  pub run_set :
      (fuel i : ℕ) (s : Scheduler c)
      → world.shutdown i ≡ true
      → run p c world (suc fuel) i s
        ≡ some (returned (record { loads = i; scheduler = s; result = ok tt }))
  unfolding run
  run_set fuel i s h = ground arith

  pub run-round :
      (fuel i : ℕ) (s s' : Scheduler c)
      → world.shutdown i ≡ false
      → round p c world i s ≡ some (returned s')
      → run p c world (suc fuel) i s ≡ run p c world fuel (suc i) s'
  unfolding run
  run-round fuel i s s' h e = ground arith

  -- What a round before the load `last` does, from a state that `Inv` holds of, with a bound on the
  -- run times that grows by a second.
  abbrev pub Visit :
      ℕ → (ℕ → Scheduler c → Type 0) → (ℕ → Scheduler c → Scheduler c → Type 0) → Type 0
  Visit last Inv Did =
      (i bound : ℕ) (s : Scheduler c)
      → i < last
      → bound + a_second < 2 ^ 64
      → Inv bound s
      → (s' : Scheduler c) × (round p c world i s ≡ some (returned s'))
        × Inv (bound + a_second) s'
        × Did i s s'

  -- Then `run` returns when the flag is set after `n` rounds, and each round has done that.
  pub run-Visits :
      (last : ℕ) (Inv : ℕ → Scheduler c → Type 0) (Did : ℕ → Scheduler c → Scheduler c → Type 0)
      (each : Visit last Inv Did) (n i bound fuel : ℕ) (s : Scheduler c)
      → i + n ≤ last
      → StopsAfter world n i
      → n < fuel
      → bound + n * a_second < 2 ^ 64
      → Inv bound s
      → (s' : Scheduler c) × (run p c world fuel i s
          ≡ some (returned (record { loads = i + n; scheduler = s'; result = ok tt })))
        × Inv (bound + n * a_second) s'
        × Chain Did n i s s'
  run-Visits last Inv Did each n i bound zero s ends stops enough room inv = absurd (omega arith)
  run-Visits last Inv Did each zero i bound (suc fuel) s ends stops enough room inv =
      let here : i + 0 ≡ i = omega arith in
      let still : bound ≡ bound + 0 * a_second = omega arith in
      (
        s,
        run_set fuel i s (subst (λ j. world.shutdown j ≡ true) here stops.then_set)
            ∙ ap (λ j. some (returned (record { loads = j; scheduler = s; result = ok tt })))
                (sym here),
        subst (λ b. Inv b s) still inv,
        refl,
      )
  run-Visits last Inv Did each (suc n) i bound (suc fuel) s within stops enough room inv =
      let here : i + 0 ≡ i = omega arith in
      let there : suc i + n ≡ i + suc n = omega arith in
      let grown : bound + a_second + n * a_second ≡ bound + suc n * a_second = omega arith in
      let (s₁, done, inv', one) = each i bound s (omega arith) (omega arith) inv in
      let (s₂, ends, inv'', others) =
        run-Visits last Inv Did each n (suc i) (bound + a_second) fuel s₁ (omega arith)
          (StopsAfter-suc world n i stops) (omega arith) (omega arith) inv' in
      (
        s₂,
        run-round fuel i s s₁
              (subst (λ j. world.shutdown j ≡ false) here (stops.before 0 (omega arith))) done
            ∙ ends
            ∙ ap (λ j. some (returned (record { loads = j; scheduler = s₂; result = ok tt })))
                there,
        subst (λ b. Inv b s₂) grown inv'',
        (s₁, one, others),
      )

  -- The same, where only what was sent counts.
  abbrev pub Round :
      ℕ
      → (ℕ → Scheduler c → Type 0)
      → (ℕ → List DispatchedTask → List DispatchedTask → Type 0)
      → Type 0
  Round last Inv Did = Visit last Inv (λ i s s'. Did i (c.sent s.bpf) (c.sent s'.bpf))

  pub run-Chain :
      (last : ℕ) (Inv : ℕ → Scheduler c → Type 0)
      (Did : ℕ → List DispatchedTask → List DispatchedTask → Type 0) (each : Round last Inv Did)
      (n i bound fuel : ℕ) (s : Scheduler c)
      → i + n ≤ last
      → StopsAfter world n i
      → n < fuel
      → bound + n * a_second < 2 ^ 64
      → Inv bound s
      → (s' : Scheduler c) × (run p c world fuel i s
          ≡ some (returned (record { loads = i + n; scheduler = s'; result = ok tt })))
        × Inv (bound + n * a_second) s'
        × Chain Did n i (c.sent s.bpf) (c.sent s'.bpf)
  run-Chain last Inv Did each n i bound fuel s within stops enough room inv =
      let (s', ends, inv', visits) =
        run-Visits last Inv (λ j t t'. Did j (c.sent t.bpf) (c.sent t'.bpf)) each n i bound fuel s
          within stops enough room inv in
      (
        s',
        ends,
        inv',
        Chain-map (λ (t : Scheduler c). c.sent t.bpf) last _ Did (λ j t t' before did. did) n i s s'
            within visits,
      )
