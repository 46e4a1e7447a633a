-- ===== src/Ballot/Reading/Order.antt =====
-- ballot_box/src/main.rs: of two calls of `votes_handler`, one after the other, the later one never
-- answers with fewer votes.
use mathlib.Core.Option
use managed_linux_democracy.Prelude.{
  ℕ, ◌+◌, ◌^◌, ◌≤◌, ◌<◌, ◌≡◌, refl, ap, ◌∙◌, subst, inl, inr, arith, length, get_elem?, modify,
  get_elem?-modify_self, get_elem?-modify_other, eqb, Bool-cases, List, [], ◌∷◌, ◌++◌, some,
  Profile,
}
use managed_linux_democracy.Prelude.Text.{Unicode}
use managed_linux_democracy.Ballot.State.{AppContext, VotesResponse}
use managed_linux_democracy.Ballot.Concurrent.{Thread}
use managed_linux_democracy.Ballot.Reading.{
  Reading, asked, answered, tallies, read, Turn, voting, reading, Service, turn, turns,
}
use managed_linux_democracy.Ballot.Reading.Bounds.{reads, turns-Answers}

module _ (u : Unicode) (p : Profile) where
  turns-append :
      (ts rest : List Turn) (w : Service)
      → turns u p (ts ++ rest) w ≡ turns u p rest (turns u p ts w)
  unfolding turns
  turns-append [] rest w = refl
  turns-append (t ∷ ts) rest w = turns-append ts rest (turn u p t w)

  -- A call that has no turn stays where it is.
  turns-idle :
      (k : ℕ) (ts : List Turn) (w : Service)
      → reads k ts ≡ 0
      → get_elem? (turns u p ts w).readers k ≡ get_elem? w.readers k
  unfolding turns turn
  turns-idle k [] w idle = refl
  turns-idle k (voting j ∷ ts) w idle = turns-idle k ts (turn u p (voting j) w) idle
  turns-idle k (reading j ∷ ts) w idle = elim (Bool-cases (eqb k j)) [
    | inl own ↦ absurd (ground arith)
    | inr other ↦
        turns-idle k ts (turn u p (reading j) w) (ground arith)
        ∙ get_elem?-modify_other w.readers k j (λ r. read r w.state) (λ e. ground arith)
  ]

  -- A call that has answered keeps its answer.
  turn-answered :
      (k : ℕ) (v : VotesResponse) (t : Turn) (w : Service)
      → get_elem? w.readers k ≡ some (answered v)
      → get_elem? (turn u p t w).readers k ≡ some (answered v)
  unfolding turn read
  turn-answered k v (voting j) w h = h
  turn-answered k v (reading j) w h = elim (Bool-cases (eqb k j)) [
    | inl own ↦
        let same : k ≡ j = ground arith in
        subst (λ i. get_elem? (modify w.readers i (λ r. read r w.state)) k ≡ some (answered v)) same
          (get_elem?-modify_self w.readers k (λ r. read r w.state)
            ∙ ap (Option.map (λ r. read r w.state)) h)
    | inr other ↦ get_elem?-modify_other w.readers k j (λ r. read r w.state) (λ e. ground arith) ∙ h
  ]

  turns-answered :
      (k : ℕ) (v : VotesResponse) (ts : List Turn) (w : Service)
      → get_elem? w.readers k ≡ some (answered v)
      → get_elem? (turns u p ts w).readers k ≡ some (answered v)
  unfolding turns
  turns-answered k v [] w h = h
  turns-answered k v (t ∷ ts) w h = turns-answered k v ts (turn u p t w) (turn-answered k v t w h)

  -- Of two calls of `votes_handler`, each with two turns, of which the second has its first turn after
  -- the first one has answered, while calls of `vote_handler` and others of `votes_handler` run in any
  -- interleaving, too few votes to make a tally overflow: both answer, and the second answers with
  -- no fewer votes for either side.
  pub votes_handler-in_order :
      (j k : ℕ) (before after : List Turn) (calls : List Thread) (s : AppContext)
      (readers : List Reading)
      → s.summer1_votes + length calls < 2 ^ 64
      → s.summer2_votes + length calls < 2 ^ 64
      → get_elem? readers j ≡ some asked
      → get_elem? readers k ≡ some asked
      → 2 ≤ reads j before
      → reads k before ≡ 0
      → 2 ≤ reads k after
      → let w =
          turns u p (before ++ after) (record { calls = calls; state = s; readers = readers }) in
        (a : ℕ) × (b : ℕ) × (c : ℕ) × (d : ℕ) × (get_elem? w.readers j
          ≡ some (answered (tallies a b)))
        × (get_elem? w.readers k ≡ some (answered (tallies c d)))
        × (a ≤ c)
        × (b ≤ d)
  votes_handler-in_order j k before after calls s readers room1 room2 first second done idle
        enough =
      let w : Service = record { calls = calls; state = s; readers = readers } in
      let between : Service = turns u p before w in
      let (room, grows, (a, b, answer, from1, to1, from2, to2)) =
        turns-Answers u p j before w (omega arith, omega arith) first done in
      let (room', grows', (c, d, answer', from1', to1', from2', to2')) =
        turns-Answers u p k after between room (turns-idle k before w idle ∙ second) enough in
      let all = turns-append before after w in
      (
        a,
        b,
        c,
        d,
        ap (λ (x : Service). get_elem? x.readers j) all
            ∙ turns-answered j (tallies a b) after between answer,
        ap (λ (x : Service). get_elem? x.readers k) all ∙ answer',
        omega (arith, to1, from1'),
        omega (arith, to2, from2'),
      )
