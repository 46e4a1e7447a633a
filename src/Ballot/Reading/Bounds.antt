-- ===== src/Ballot/Reading/Bounds.antt =====
-- ballot_box/src/main.rs: what `votes_handler` can answer while votes are cast.
use mathlib.Core.Option
use managed_linux_democracy.Prelude.{
  ℕ, ◌+◌, ◌^◌, ◌≤◌, ◌<◌, ◌≡◌, refl, ap, ◌∙◌, subst, inl, inr, arith, length, get_elem?, modify,
  get_elem?-modify_self, get_elem?-modify_other, eqb, if◌then◌else◌, Bool-cases, List, [], ◌∷◌,
  Option, some, Profile,
}
use managed_linux_democracy.Prelude.Text.{Unicode}
use managed_linux_democracy.Ballot.State.{AppContext}
use managed_linux_democracy.Ballot.Concurrent.{Thread, step}
use managed_linux_democracy.Ballot.Room.{Room, Rises, Room-step}
use managed_linux_democracy.Ballot.Reading.{
  Reading, asked, half_read, answered, tallies, read, Turn, voting, reading, Service, turn, turns,
}

-- How often the call of `votes_handler` with this number has its turn.
abbrev pub reads : ℕ → List Turn → ℕ
reads k [] = 0
reads k (voting j ∷ ts) = reads k ts
reads k (reading j ∷ ts) = (if eqb k j then 1 else 0) + reads k ts

-- The loads that a call has left.
abbrev pub loads_left : Reading → ℕ
loads_left asked = 2
loads_left (half_read _) = 1
loads_left (answered _) = 0

-- What a call has loaded lies between a tally in the past and the tally of now.
abbrev pub Known : ℕ → ℕ → AppContext → Reading → Type 0
Known x y s asked = (x ≤ s.summer1_votes) × (y ≤ s.summer2_votes)
Known x y s (half_read a) = (x ≤ a) × (a ≤ s.summer1_votes) × (y ≤ s.summer2_votes)
Known x y s (answered v) =
    (a : ℕ) × (b : ℕ) × (v ≡ tallies a b)
    × (x ≤ a)
    × (a ≤ s.summer1_votes)
    × (y ≤ b)
    × (b ≤ s.summer2_votes)

Known-grows :
    (x y : ℕ) (s s' : AppContext) (q : Reading) → Rises s s' → Known x y s q → Known x y s' q
Known-grows x y s s' asked grows known = omega (arith, known)
Known-grows x y s s' (half_read a) grows known = omega (arith, known)
Known-grows x y s s' (answered v) grows (a, b, same, above1, below1, above2, below2) =
    (a, b, same, above1, omega arith, above2, omega arith)

Known-read : (x y : ℕ) (s : AppContext) (q : Reading) → Known x y s q → Known x y s (read q s)
unfolding read
Known-read x y s asked known = omega (arith, known)
Known-read x y s (half_read a) known =
    (a, s.summer2_votes, refl, known.0, known.1, known.2, omega arith)
Known-read x y s (answered v) known = known

-- A call with no loads left has answered.
settled :
    (x y : ℕ) (s : AppContext) (q : Reading)
    → loads_left q ≡ 0
    → Known x y s q
    → (a : ℕ) × (b : ℕ) × (q ≡ answered (tallies a b))
      × (x ≤ a)
      × (a ≤ s.summer1_votes)
      × (y ≤ b)
      × (b ≤ s.summer2_votes)
settled x y s asked none_left known = absurd (omega arith)
settled x y s (half_read a) none_left known = absurd (omega arith)
settled x y s (answered v) none_left (a, b, same, above1, below1, above2, below2) =
    (a, b, ap answered same, above1, below1, above2, below2)

loads_left-read :
    (q : Reading) (s : AppContext) (n : ℕ) → loads_left q ≤ 1 + n → loads_left (read q s) ≤ n
unfolding read
loads_left-read q s n h = ground arith

-- Between two tallies of each side.
abbrev pub Answers : AppContext → AppContext → Option Reading → Type 0
Answers s s' o =
    (a : ℕ) × (b : ℕ) × (o ≡ some (answered (tallies a b)))
    × (s.summer1_votes ≤ a)
    × (a ≤ s'.summer1_votes)
    × (s.summer2_votes ≤ b)
    × (b ≤ s'.summer2_votes)

module _ (u : Unicode) (p : Profile) where
  -- The call with this number, with what it knows, and at most `n` loads left.
  abbrev pub Follows : ℕ → ℕ → ℕ → ℕ → Service → Type 0
  Follows x y k n w =
      (q : Reading) × (get_elem? w.readers k ≡ some q) × (loads_left q ≤ n) × Known x y w.state q

  Follows-read :
      (x y k n j : ℕ) (ts : List Turn) (w : Service)
      → Follows x y k (n + reads k (reading j ∷ ts)) w
      → Follows x y k (n + reads k ts) (turn u p (reading j) w)
  unfolding turn
  Follows-read x y k n j ts w (q, here, left, known) = elim (Bool-cases (eqb k j)) [
    | inl own ↦
        let same : k ≡ j = ground arith in
        (
          read q w.state,
          subst
              (λ i. get_elem? (modify w.readers i (λ r. read r w.state)) k ≡ some (read q w.state))
              same
              (get_elem?-modify_self w.readers k (λ r. read r w.state)
                ∙ ap (Option.map (λ r. read r w.state)) here),
          loads_left-read q w.state (n + reads k ts) (ground arith),
          Known-read x y w.state q known,
        )
    | inr other ↦ (
      q,
      get_elem?-modify_other w.readers k j (λ r. read r w.state) (λ e. ground arith) ∙ here,
      ground arith,
      known,
    )
  ]

  Follows-turn :
      (x y k n : ℕ) (t : Turn) (ts : List Turn) (w : Service)
      → Room u p w.calls w.state
      → Follows x y k (n + reads k (t ∷ ts)) w
      → Room u p (turn u p t w).calls (turn u p t w).state
        × Rises w.state (turn u p t w).state
        × Follows x y k (n + reads k ts) (turn u p t w)
  unfolding turn
  Follows-turn x y k n (voting j) ts w room (q, here, left, known) =
      let (room', grows) = Room-step u p j w.calls w.state room in
      (
        room',
        grows,
        (q, here, left, Known-grows x y w.state (step u p j w.calls w.state).1 q grows known),
      )
  Follows-turn x y k n (reading j) ts w room (q, here, left, known) =
      (room, (omega arith, omega arith), Follows-read x y k n j ts w (q, here, left, known))

  Follows-turns :
      (x y k n : ℕ) (ts : List Turn) (w : Service)
      → Room u p w.calls w.state
      → Follows x y k (n + reads k ts) w
      → Room u p (turns u p ts w).calls (turns u p ts w).state
        × Rises w.state (turns u p ts w).state
        × Follows x y k n (turns u p ts w)
  unfolding turns
  Follows-turns x y k n [] w room (q, here, left, known) =
      (room, (omega arith, omega arith), (q, here, omega (arith, left), known))
  Follows-turns x y k n (t ∷ ts) w room follows =
      let (room', (grows1, grows2), follows') = Follows-turn x y k n t ts w room follows in
      let (room'', (grows1', grows2'), follows'') =
        Follows-turns x y k n ts (turn u p t w) room' follows' in
      (room'', (omega (arith, grows1, grows1'), omega (arith, grows2, grows2')), follows'')

  pub turns-Answers :
      (k : ℕ) (ts : List Turn) (w : Service)
      → Room u p w.calls w.state
      → get_elem? w.readers k ≡ some asked
      → 2 ≤ reads k ts
      → Room u p (turns u p ts w).calls (turns u p ts w).state
        × Rises w.state (turns u p ts w).state
        × Answers w.state (turns u p ts w).state (get_elem? (turns u p ts w).readers k)
  turns-Answers k ts w room here enough =
      let (room', grows, (q, there, left, known)) =
        Follows-turns w.state.summer1_votes w.state.summer2_votes k 0 ts w room
          (asked, here, omega arith, (omega arith, omega arith)) in
      let (a, b, same, above1, below1, above2, below2) =
        settled w.state.summer1_votes w.state.summer2_votes (turns u p ts w).state q (omega arith)
          known in
      (room', grows, (a, b, there ∙ ap some same, above1, below1, above2, below2))

  -- While calls of `vote_handler` and of `votes_handler` run in any interleaving, too few votes to
  -- make a tally overflow, each call of `votes_handler` that has two turns answers, with tallies each
  -- between that at its start and that in the end.
  pub votes_handler-between :
      (k : ℕ) (ts : List Turn) (calls : List Thread) (s : AppContext) (readers : List Reading)
      → s.summer1_votes + length calls < 2 ^ 64
      → s.summer2_votes + length calls < 2 ^ 64
      → get_elem? readers k ≡ some asked
      → 2 ≤ reads k ts
      → let w = turns u p ts (record { calls = calls; state = s; readers = readers }) in
        (a : ℕ) × (b : ℕ) × (get_elem? w.readers k ≡ some (answered (tallies a b)))
        × (s.summer1_votes ≤ a)
        × (a ≤ w.state.summer1_votes)
        × (s.summer2_votes ≤ b)
        × (b ≤ w.state.summer2_votes)
  votes_handler-between k ts calls s readers room1 room2 here enough =
      let (room, grows, answer) =
        turns-Answers k ts (record { calls = calls; state = s; readers = readers })
          (omega arith, omega arith) here enough in
      answer
