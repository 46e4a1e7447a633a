-- ===== src/Tests/Interleaved.antt =====
-- Calls of the voting service that run at once, at concrete interleavings.
use managed_linux_democracy.Prelude.{
  All, ◌≤◌, ℕ, ◌+◌, ◌≡◌, refl, arith, inr, dev, List, [], ◌∷◌, ◌++◌, get_elem?, some, ok, err,
  returned,
}
use managed_linux_democracy.Prelude.Map.{get, insert}
use managed_linux_democracy.Prelude.Text.{codes, to_lowercase, text_eqb}
use managed_linux_democracy.Ballot.State.{
  v4, ip_eq, AppContext, new, summer1, summer2, Request, Reply,
}
use managed_linux_democracy.Ballot.Vote.{check_vote}
use managed_linux_democracy.Ballot.Handler.{
  limited, record_request, cast_vote, tally_response, vote_handler,
}
use managed_linux_democracy.Ballot.Calls.{call_at}
use managed_linux_democracy.Ballot.Closing.{interleave-limited}
use managed_linux_democracy.Ballot.OwnVote.{Replied}
use managed_linux_democracy.Ballot.OwnVote.Interleaved.{interleave-Replied}
use managed_linux_democracy.Ballot.Concurrent.{
  Pc, arrived, finished, recorded, interleave, step, advance,
}
use managed_linux_democracy.Ballot.Interleavings.{vote_handler_race}
use managed_linux_democracy.Ballot.Reading.{
  asked, answered, tallies, Turn, voting, reading, Service, turns, turn,
}
use managed_linux_democracy.Ballot.Reading.Bounds.{votes_handler-between}
use managed_linux_democracy.Ballot.Reading.Order.{votes_handler-in_order}
use managed_linux_democracy.Ballot.Reading.Torn.{
  passed_states, torn_order, torn_start, votes_handler_torn,
}
use managed_linux_democracy.Election.Margin.{after_turns}
use managed_linux_democracy.Tests.Kernel.{ascii_only}
use managed_linux_democracy.Tests.Service.{ask}

abbrev pub pair : List (Request × Pc)
pair = (ask 1 7 (codes "summer1"), arrived) ∷ (ask 2 7 (codes "summer1"), recorded) ∷ []

votes-first : check_vote ascii_only (codes "summer1") ≡ some summer1
unfolding check_vote to_lowercase text_eqb
votes-first = refl

votes-second : check_vote ascii_only (codes "summer2") ≡ some summer2
unfolding check_vote to_lowercase text_eqb
votes-second = refl

vote_handler_race_example :
    let r = ask 1 7 (codes "summer1") in
    let q = ask 1 7 (codes "summer2") in
    let s' =
      cast_vote summer2
        (cast_vote summer1 (record_request (v4 1) 7 (record_request (v4 1) 7 new))) in
    let both = returned (ok (tally_response s'.summer1_votes s'.summer2_votes)) in
    ((vote_handler ascii_only dev q (vote_handler ascii_only dev r new).0).1
      ≡ returned (err limited))
    × (interleave ascii_only dev
          (0 ∷ 1 ∷ 0 ∷ 1 ∷ 0 ∷ 1 ∷ 0 ∷ 1 ∷ 0 ∷ 1 ∷ [])
          ((r, arrived) ∷ (q, arrived) ∷ [])
          new
        ≡ ((r, finished both) ∷ (q, finished both) ∷ [], s'))
unfolding get
vote_handler_race_example =
    vote_handler_race ascii_only dev (ask 1 7 (codes "summer1")) (ask 1 7 (codes "summer2")) new
      summer1 summer2 refl refl refl votes-first votes-second

votes_handler-between_example :
    let w =
      turns ascii_only dev torn_order
        (record { calls = pair; state = new; readers = asked ∷ [] }) in
    (a : ℕ) × (b : ℕ) × (get_elem? w.readers 0 ≡ some (answered (tallies a b)))
    × (new.summer1_votes ≤ a)
    × (a ≤ w.state.summer1_votes)
    × (new.summer2_votes ≤ b)
    × (b ≤ w.state.summer2_votes)
votes_handler-between_example =
    votes_handler-between ascii_only dev 0 torn_order pair new (asked ∷ []) (omega arith)
      (omega arith) refl (omega arith)

-- Two questions one after the other, with votes during both.
abbrev first_question : List Turn
first_question = reading 0 ∷ voting 0 ∷ voting 1 ∷ reading 0 ∷ voting 0 ∷ []

abbrev second_question : List Turn
second_question = voting 0 ∷ reading 1 ∷ voting 1 ∷ reading 1 ∷ []

votes_handler-in_order_example :
    let w =
      turns ascii_only dev
        (first_question ++ second_question)
        (record { calls = pair; state = new; readers = asked ∷ asked ∷ [] }) in
    (a : ℕ) × (b : ℕ) × (c : ℕ) × (d : ℕ) × (get_elem? w.readers 0 ≡ some (answered (tallies a b)))
    × (get_elem? w.readers 1 ≡ some (answered (tallies c d)))
    × (a ≤ c)
    × (b ≤ d)
votes_handler-in_order_example =
    votes_handler-in_order ascii_only dev 0 1 first_question second_question pair new
      (asked ∷ asked ∷ []) (omega arith) (omega arith) refl refl (omega arith) refl (omega arith)

abbrev torn : Service
torn = torn_start (ask 1 7 (codes "summer1")) (ask 2 7 (codes "summer2")) new

votes_handler_torn_example :
    All (λ t. t.summer2_votes ≤ t.summer1_votes) (passed_states ascii_only dev torn_order torn)
    × ((turns ascii_only dev torn_order torn).readers ≡ answered (tallies 0 (0 + 1)) ∷ [])
unfolding get
votes_handler_torn_example =
    votes_handler_torn ascii_only dev (ask 1 7 (codes "summer1")) (ask 2 7 (codes "summer2")) new
      (λ h. ground arith) refl refl votes-first votes-second refl (omega arith)

abbrev both : AppContext
both = (interleave ascii_only dev (0 ∷ 1 ∷ 0 ∷ 0 ∷ 1 ∷ 0 ∷ 0 ∷ []) pair new).1

interleave-Replied_example :
    (reply : Reply) × (call_at 0
        (interleave ascii_only dev (0 ∷ 1 ∷ 0 ∷ 0 ∷ 1 ∷ 0 ∷ 0 ∷ []) pair new).0
      ≡ some (ask 1 7 (codes "summer1"), finished reply))
    × Replied ascii_only (ask 1 7 (codes "summer1")) 0 0 both reply
interleave-Replied_example =
    interleave-Replied ascii_only dev 0 (0 ∷ 1 ∷ 0 ∷ 0 ∷ 1 ∷ 0 ∷ 0 ∷ []) pair new
      (ask 1 7 (codes "summer1")) refl (omega arith) (omega arith) (omega arith)

-- The first call has been through the limiter, and the second one comes from the same address.
abbrev repeated : List (Request × Pc)
repeated = (ask 1 7 (codes "summer1"), recorded) ∷ (ask 1 7 (codes "summer2"), arrived) ∷ []

abbrev after_entry : AppContext
after_entry = record_request (v4 1) 7 new

interleave-limited_example :
    call_at 1 (interleave ascii_only dev (0 ∷ 1 ∷ 0 ∷ 1 ∷ []) repeated after_entry).0
    ≡ some (ask 1 7 (codes "summer2"), finished (returned (err limited)))
unfolding get insert
interleave-limited_example =
    interleave-limited ascii_only dev 1 (0 ∷ 1 ∷ 0 ∷ 1 ∷ []) repeated after_entry
      (ask 1 7 (codes "summer2")) (inr refl, (inr refl, tt)) refl refl (omega arith)

-- Four votes ahead of two calls.
abbrev pub far : AppContext
far = record { summer1_votes = 1; summer2_votes = 5; rate_limiter = [] }

abbrev after_far : Service
after_far = after_turns ascii_only dev torn_order pair far (asked ∷ [])

far-clear : after_far.state ≡ record far { summer1_votes = 3; rate_limiter = (v4 1, 7) ∷ [] }
unfolding turns turn step advance check_vote to_lowercase text_eqb get insert
far-clear = refl
