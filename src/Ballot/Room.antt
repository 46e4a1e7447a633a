-- ===== src/Ballot/Room.antt =====
-- ballot_box/src/main.rs: while no tally can wrap, calls of `vote_handler` take none down.
use managed_linux_democracy.Prelude.{
  ℕ, zero, suc, ◌+◌, ◌^◌, ◌≤◌, ◌<◌, ◌≡◌, refl, arith, length, List, [], ◌∷◌, Profile,
}
use managed_linux_democracy.Prelude.Text.{Unicode}
use managed_linux_democracy.Ballot.State.{AppContext, PossibleVote, summer1, summer2}
use managed_linux_democracy.Ballot.Replies.{votes_for}
use managed_linux_democracy.Ballot.Concurrent.{Thread, step}
use managed_linux_democracy.Ballot.Interleavings.{has_cast, total_cast, step-Gains}

-- No tally goes down from one state to another.
abbrev pub Rises : AppContext → AppContext → Type 0
Rises s s' = (s.summer1_votes ≤ s'.summer1_votes) × (s.summer2_votes ≤ s'.summer2_votes)

module _ (u : Unicode) (p : Profile) where
  -- No tally wraps, even if every call that has not cast its vote yet casts it for this side.
  abbrev pub HasRoom : PossibleVote → List Thread → AppContext → Type 0
  HasRoom v ts s = votes_for v s + length ts < 2 ^ 64 + total_cast u v ts

  abbrev pub Room : List Thread → AppContext → Type 0
  Room ts s = HasRoom summer1 ts s × HasRoom summer2 ts s

  pub has_cast-one : (v : PossibleVote) (t : Thread) → has_cast u v t ≤ 1
  has_cast-one v t = ground arith

  pub total_cast-length : (v : PossibleVote) (ts : List Thread) → total_cast u v ts ≤ length ts
  total_cast-length v [] = omega arith
  total_cast-length v (t ∷ ts) = omega (arith, has_cast-one v t, total_cast-length v ts)

  length-step : (k : ℕ) (ts : List Thread) (s : AppContext) → length (step u p k ts s).0 ≡ length ts
  unfolding step
  length-step k [] s = refl
  length-step zero ((r, pc) ∷ ts) s = refl
  length-step (suc k) (t ∷ ts) s = omega (arith, length-step k ts s)

  step-grows :
      (v : PossibleVote) (k : ℕ) (ts : List Thread) (s : AppContext)
      → HasRoom v ts s
      → let (ts', s') = step u p k ts s in HasRoom v ts' s' × (votes_for v s ≤ votes_for v s')
  step-grows v k ts s room =
      let fits : votes_for v s < 2 ^ 64 = omega (arith, total_cast-length v ts) in
      let (gain, votes, total) = step-Gains u p v k ts s fits in
      let left = total_cast-length v (step u p k ts s).0 in
      (
        omega (arith, votes, total, length-step k ts s, left),
        omega (arith, votes, total, length-step k ts s, left),
      )

  -- While there is room, a step of a vote takes no tally down, and leaves room.
  pub Room-step :
      (k : ℕ) (ts : List Thread) (s : AppContext)
      → Room ts s
      → let (ts', s') = step u p k ts s in Room ts' s' × Rises s s'
  Room-step k ts s (room1, room2) =
      let (room1', grows1) = step-grows summer1 k ts s room1 in
      let (room2', grows2) = step-grows summer2 k ts s room2 in ((room1', room2'), (grows1, grows2))
