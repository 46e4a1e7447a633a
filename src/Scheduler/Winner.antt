-- ===== src/Scheduler/Winner.antt =====
-- democracy-scheduler/src/main.rs: `get_current_winner`, the question to the voting service.
use managed_linux_democracy.Prelude.{
  ℕ, ◌≤◌, ◌<◌, ◌≡◌, refl, sym, ap, subst, true, false, ◌⊎◌, inl, inr, arith, if◌then◌else◌, ltb,
  Bool-cases, List, [], ◌∷◌, ◌++◌, Option, none, some, Result, ok, err, All,
}
use managed_linux_democracy.Prelude.Text.{Text, Unicode}
use managed_linux_democracy.Scheduler.Competitors.{Competitors, from_str}

-- `struct Vote(String, u32)`
pub record Vote : Type 0 where
  pub choice : Text
  pub count : ℕ

pub record CurrentWinnerResponse : Type 0 where
  pub votes : List Vote

-- The loop over the tallies.
unfoldable pub pick : Vote → List Vote → Vote
pick winner [] = winner
pick winner (tally ∷ tallys) = pick (if ltb winner.count tally.count then tally else winner) tallys

abbrev pub nobody : Vote
nobody = record { choice = []; count = 0 }

-- What the request comes to: it fails, or a body arrives.
pub data Fetched (Body : Type 0) : Type 0 where
  send_failed : Fetched Body
  received : Body → Fetched Body

pub data WinnerError : Type 0 where
  no_response bad_json unknown_competitor : WinnerError

-- `reqwest` and `serde_json` stand outside: `decode` reads a body as a `CurrentWinnerResponse`.
module _ (u : Unicode) {Body : Type 0} (decode : Body → Option CurrentWinnerResponse) where
  unfoldable pub get_current_winner : Fetched Body → Result Competitors WinnerError
  get_current_winner send_failed = err no_response
  get_current_winner (received body) = elim (decode body) [
    | none ↦ err bad_json
    | some tallys ↦ elim (from_str u (pick nobody tallys.votes).choice) [
      | none ↦ err unknown_competitor
      | some c ↦ ok c
    ]
  ]

-- `w` is the first of the votes that has the largest count.
pub record IsFirstMost (w : Vote) (votes : List Vote) : Type 0 where
  pub before : List Vote
  pub after : List Vote
  pub split : votes ≡ before ++ w ∷ after
  pub fewer : All (λ v. v.count < w.count) before
  pub at_most : All (λ v. v.count ≤ w.count) after

-- What the loop may have found when it began with `start`.
abbrev pub Found : Vote → List Vote → Vote → Type 0
Found start votes w =
    ((start.count < w.count) × IsFirstMost w votes)
    ⊎ ((w ≡ start) × All (λ v. v.count ≤ start.count) votes)

IsFirstMost-cons :
    (w v : Vote) (votes : List Vote)
    → v.count < w.count
    → IsFirstMost w votes
    → IsFirstMost w (v ∷ votes)
IsFirstMost-cons w v votes less f = record {
  before = v ∷ f.before;
  after = f.after;
  split = ap (λ vs. v ∷ vs) f.split;
  fewer = (less, f.fewer);
  at_most = f.at_most;
}

Found-more :
    (start v w : Vote) (votes : List Vote)
    → start.count < v.count
    → Found v votes w
    → Found start (v ∷ votes) w
Found-more start v w votes more (inl (less, first)) =
    inl (omega arith, IsFirstMost-cons w v votes less first)
Found-more start v w votes more (inr (same, most)) = inl (
  rw same more,
  record { before = []; after = votes; split = rw same; fewer = tt; at_most = rw same most },
)

Found-less :
    (start v w : Vote) (votes : List Vote)
    → v.count ≤ start.count
    → Found start votes w
    → Found start (v ∷ votes) w
Found-less start v w votes le (inl (less, first)) =
    inl (less, IsFirstMost-cons w v votes (omega arith) first)
Found-less start v w votes le (inr (same, most)) = inr (same, (le, most))

-- The loop ends with the first vote that has the largest count, if that is above the count it
-- began with; if no vote has more, with what it began with.
pub pick-Found : (start : Vote) (votes : List Vote) → Found start votes (pick start votes)
unfolding pick
pick-Found start [] = inr (refl, tt)
pick-Found start (v ∷ votes) = elim (Bool-cases (ltb start.count v.count)) [
  | inl more ↦
      subst (λ w. Found start (v ∷ votes) (pick w votes)) (sym (chosen more))
        (Found-more start v (pick v votes) votes (ground arith) (pick-Found v votes))
  | inr less ↦
      subst (λ w. Found start (v ∷ votes) (pick w votes)) (sym (kept less))
        (Found-less start v (pick start votes) votes (ground arith) (pick-Found start votes))
]
  where
    chosen : ltb start.count v.count ≡ true → (if ltb start.count v.count then v else start) ≡ v
    chosen h = rw h

    kept : ltb start.count v.count ≡ false → (if ltb start.count v.count then v else start) ≡ start
    kept h = rw h
