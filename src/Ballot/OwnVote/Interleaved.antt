-- ===== src/Ballot/OwnVote/Interleaved.antt =====
-- ballot_box/src/main.rs: a call of `vote_handler` to its end, among others.
use managed_linux_democracy.Prelude.{
  ℕ, zero, suc, ◌+◌, ◌^◌, ◌≤◌, ◌<◌, ◌≡◌, sym, ap, ◌∙◌, subst, inl, inr, arith, eqb, Bool-cases,
  length, List, [], ◌∷◌, some, Profile,
}
use managed_linux_democracy.Prelude.Text.{Unicode}
use managed_linux_democracy.Ballot.State.{
  ip_eq, AppContext, PossibleVote, summer1, summer2, Request, Reply,
}
use managed_linux_democracy.Ballot.Concurrent.{
  Pc, arrived, passed, recorded, counted, loaded, finished, Thread, advance, step, interleave,
}
use managed_linux_democracy.Ballot.Interleavings.{has_cast, total_cast}
use managed_linux_democracy.Ballot.Finishing.{
  remaining, remaining_at, turns_of, interleave-finishes,
}
use managed_linux_democracy.Ballot.Room.{Room, Room-step, has_cast-one, total_cast-length}
use managed_linux_democracy.Ballot.Calls.{call_at, call_at-step, call_at-step_other}
use managed_linux_democracy.Ballot.OwnVote.{Replied, Knows, Knows-grows, Knows-advance}

module _ (u : Unicode) (p : Profile) where
  -- A call that has not cast its vote leaves room for it.
  total_cast-recorded :
      (v : PossibleVote) (k : ℕ) (ts : List Thread) (r : Request)
      → call_at k ts ≡ some (r, recorded)
      → total_cast u v ts + 1 ≤ length ts
  total_cast-recorded v k [] r h = absurd (cc)
  total_cast-recorded v zero ((q, pc) ∷ ts) r h =
      let here : pc ≡ recorded = ground arith in
      let none_yet : has_cast u v (q, pc) ≡ 0 = rw here in
      omega (arith, none_yet, total_cast-length u p v ts)
  total_cast-recorded v (suc k) (t ∷ ts) r h =
      omega (arith, has_cast-one u p v t, total_cast-recorded v k ts r h)

  Knows-step :
      (x y k j : ℕ) (ts : List Thread) (s : AppContext) (r : Request) (pc : Pc)
      → Room u p ts s
      → call_at k ts ≡ some (r, pc)
      → Knows u r x y s pc
      → (pc' : Pc) × (call_at k (step u p j ts s).0 ≡ some (r, pc'))
        × Knows u r x y (step u p j ts s).1 pc'
  Knows-step x y k j ts s r pc room here known = elim (Bool-cases (eqb k j)) [
    | inl own ↦
        let same : k ≡ j = ground arith in
        let (there, state) = call_at-step u p k ts s r pc here in
        let fits : pc ≡ recorded → (s.summer1_votes + 1 < 2 ^ 64) × (s.summer2_votes + 1 < 2 ^ 64) =
          λ e.
            let uncast : call_at k ts ≡ some (r, recorded) = rw e at here in
            omega (
              arith,
              room,
              total_cast-recorded summer1 k ts r uncast,
              total_cast-recorded summer2 k ts r uncast,
            ) in
        subst
          (λ i.
            (pc' : Pc) × (call_at k (step u p i ts s).0 ≡ some (r, pc'))
            × Knows u r x y (step u p i ts s).1 pc')
          same
          (
            (advance u p r pc s).0,
            there,
            subst (λ t. Knows u r x y t (advance u p r pc s).0) (sym state)
                (Knows-advance u r x y p s pc fits known),
          )
    | inr other ↦
        let (room', (grows1, grows2)) = Room-step u p j ts s room in
        (
          pc,
          call_at-step_other u p k j ts s (λ e. ground arith) ∙ here,
          Knows-grows u r x y s (step u p j ts s).1 pc grows1 grows2 known,
        )
  ]

  Knows-interleave :
      (x y k : ℕ) (ks : List ℕ) (ts : List Thread) (s : AppContext) (r : Request) (pc : Pc)
      → Room u p ts s
      → call_at k ts ≡ some (r, pc)
      → Knows u r x y s pc
      → let (ts', s') = interleave u p ks ts s in
        (pc' : Pc) × (call_at k ts' ≡ some (r, pc')) × Knows u r x y s' pc'
  unfolding interleave
  Knows-interleave x y k [] ts s r pc room here known = (pc, here, known)
  Knows-interleave x y k (j ∷ ks) ts s r pc room here known =
      let (pc', there, known') = Knows-step x y k j ts s r pc room here known in
      Knows-interleave x y k ks (step u p j ts s).0 (step u p j ts s).1 r pc'
        (Room-step u p j ts s room).0 there known'

  remaining_at-call_at :
      (k : ℕ) (ts : List Thread) (r : Request) (pc : Pc)
      → call_at k ts ≡ some (r, pc)
      → remaining_at k ts ≡ remaining pc
  remaining_at-call_at k [] r pc h = absurd (cc)
  remaining_at-call_at zero ((q, pc') ∷ ts) r pc h =
      let same : pc' ≡ pc = ground arith in ap remaining same
  remaining_at-call_at (suc k) (t ∷ ts) r pc h = remaining_at-call_at k ts r pc h

  settles :
      (x y k : ℕ) (ts : List Thread) (s : AppContext) (r : Request) (pc : Pc)
      → remaining pc ≡ 0
      → call_at k ts ≡ some (r, pc)
      → Knows u r x y s pc
      → (reply : Reply) × (call_at k ts ≡ some (r, finished reply)) × Replied u r x y s reply
  settles x y k ts s r arrived ended here known = absurd (omega arith)
  settles x y k ts s r passed ended here known = absurd (omega arith)
  settles x y k ts s r recorded ended here known = absurd (omega arith)
  settles x y k ts s r counted ended here known = absurd (omega arith)
  settles x y k ts s r (loaded a) ended here known = absurd (omega arith)
  settles x y k ts s r (finished reply) ended here known = (reply, here, known)

  -- In any interleaving with other calls, too few to make a tally overflow, a call of `vote_handler`
  -- that has five turns has its reply. If its vote was counted, the text is a vote, and the reply's
  -- tallies each lie between that at its start, with its own vote added on its side, and that in the
  -- end. If it was refused, the limiter has stopped it or the text is no vote.
  pub interleave-Replied :
      (k : ℕ) (ks : List ℕ) (ts : List Thread) (s : AppContext) (r : Request)
      → call_at k ts ≡ some (r, arrived)
      → 5 ≤ turns_of k ks
      → s.summer1_votes + length ts < 2 ^ 64
      → s.summer2_votes + length ts < 2 ^ 64
      → let (ts', s') = interleave u p ks ts s in
        (reply : Reply) × (call_at k ts' ≡ some (r, finished reply))
        × Replied u r s.summer1_votes s.summer2_votes s' reply
  interleave-Replied k ks ts s r here enough room1 room2 =
      let x : ℕ = s.summer1_votes in
      let y : ℕ = s.summer2_votes in
      let (pc, there, known) =
        Knows-interleave x y k ks ts s r arrived (omega arith, omega arith) here (omega arith) in
      let ended : remaining pc ≡ 0 =
        sym (remaining_at-call_at k (interleave u p ks ts s).0 r pc there)
        ∙ interleave-finishes u p k ks ts s
            (omega (arith, remaining_at-call_at k ts r arrived here, enough)) in
      settles x y k (interleave u p ks ts s).0 (interleave u p ks ts s).1 r pc ended there known
