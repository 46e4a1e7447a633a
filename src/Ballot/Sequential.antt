-- ===== src/Ballot/Sequential.antt =====
-- ballot_box/src/main.rs: calls of `vote_handler` that run one after another are calls that nothing
-- interrupts.
use managed_linux_democracy.Prelude.{ℕ, suc, ◌≡◌, refl, ap, ◌∙◌, arith, List, [], ◌∷◌, map, Profile}
use managed_linux_democracy.Prelude.Text.{Unicode}
use managed_linux_democracy.Ballot.State.{AppContext, Request}
use managed_linux_democracy.Ballot.Handler.{vote_handler}
use managed_linux_democracy.Ballot.Concurrent.{arrived, finished, Thread, step, interleave}
use managed_linux_democracy.Ballot.Trace.{Log, serve}

-- Every call has five turns in a row, in the order of the calls.
abbrev one_by_one : List Request → List ℕ
one_by_one [] = []
one_by_one (r ∷ rs) = 0 ∷ 0 ∷ 0 ∷ 0 ∷ 0 ∷ map suc (one_by_one rs)

abbrev arriving : List Request → List Thread
arriving rs = map (λ r. (r, arrived)) rs

abbrev replied : Log → List Thread
replied log = map (λ e. (e.0, finished e.1)) log

module _ (u : Unicode) (p : Profile) where
  -- The first call, alone for five steps.
  first_call :
      (r : Request) (ks : List ℕ) (ts : List Thread) (s : AppContext)
      → let (s', reply) = vote_handler u p r s in
        interleave u p (0 ∷ 0 ∷ 0 ∷ 0 ∷ 0 ∷ ks) ((r, arrived) ∷ ts) s
        ≡ interleave u p ks ((r, finished reply) ∷ ts) s'
  unfolding interleave vote_handler
  first_call r ks ts s = ground arith

  -- Steps of the calls behind the first one leave it alone.
  later_calls :
      (ks : List ℕ) (t : Thread) (ts : List Thread) (s : AppContext)
      → let (ts', s') = interleave u p ks ts s in
        interleave u p (map suc ks) (t ∷ ts) s ≡ (t ∷ ts', s')
  unfolding interleave
  later_calls [] t ts s = refl
  later_calls (k ∷ ks) t ts s = later_calls ks t (step u p k ts s).0 (step u p k ts s).1

  -- Calls that run one after another, five steps each, do what `vote_handler` does as one call after
  -- another, and have its replies.
  interleave-serve :
      (rs : List Request) (s : AppContext)
      → let (s', log) = serve u p rs s in
        interleave u p (one_by_one rs) (arriving rs) s ≡ (replied log, s')
  unfolding interleave serve
  interleave-serve [] s = refl
  interleave-serve (r ∷ rs) s =
      let (s', reply) = vote_handler u p r s in
      first_call r (map suc (one_by_one rs)) (arriving rs) s
      ∙ later_calls (one_by_one rs) (r, finished reply) (arriving rs) s'
      ∙ ap (λ x. ((r, finished reply) ∷ x.0, x.1)) (interleave-serve rs s')
