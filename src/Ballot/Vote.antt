-- ===== src/Ballot/Vote.antt =====
-- ballot_box/src/main.rs: `check_vote`, and which texts it takes.
use managed_linux_democracy.Prelude.{◌≡◌, ◌↔◌, arith, if◌then◌else◌, Option, none, some, ◌==◌}
use managed_linux_democracy.Prelude.Text.{
  Text, codes, text_eq, text_eqb_iff, Unicode, to_lowercase, to_lowercase_iff, Spells,
}
use managed_linux_democracy.Ballot.State.{PossibleVote, summer1, summer2}

-- The texts that the two names are compared with.
abbrev pub name : PossibleVote → Text
name summer1 = codes "summer1"
name summer2 = codes "summer2"

module _ (u : Unicode) where
  -- `none` is the error "Not a valid vote", which the caller does not read.
  unfoldable pub check_vote : Text → Option PossibleVote
  check_vote user_vote =
      let lowered = to_lowercase u user_vote in
      if lowered == codes "summer1"
      then some summer1
      else if lowered == codes "summer2"
      then some summer2
      else none

  lowered_iff : (s : Text) (v : PossibleVote) → (to_lowercase u s ≡ name v) ↔ Spells s (name v)
  lowered_iff s summer1 = to_lowercase_iff u s (codes "summer1") (omega arith)
  lowered_iff s summer2 = to_lowercase_iff u s (codes "summer2") (omega arith)

  check_vote-lowered :
      (s : Text) (v : PossibleVote) → (check_vote s ≡ some v) ↔ (to_lowercase u s ≡ name v)
  unfolding check_vote
  check_vote-lowered s summer1 = ground (
    arith,
    text_eqb_iff (to_lowercase u s) (codes "summer1"),
    text_eqb_iff (to_lowercase u s) (codes "summer2"),
  )
  check_vote-lowered s summer2 = ground (
    arith,
    text_eqb_iff (to_lowercase u s) (codes "summer1"),
    text_eqb_iff (to_lowercase u s) (codes "summer2"),
  )

  -- A text is taken for a vote exactly when it spells the name of that vote, in upper or lower case
  -- letters of ASCII; what any other character is lowered to makes no difference.
  pub check_vote_iff : (s : Text) (v : PossibleVote) → (check_vote s ≡ some v) ↔ Spells s (name v)
  check_vote_iff s v = (
    λ h. (lowered_iff s v).0 ((check_vote-lowered s v).0 h),
    λ h. (check_vote-lowered s v).1 ((lowered_iff s v).1 h),
  )
