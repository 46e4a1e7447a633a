-- ===== src/Ballot/Tally.antt =====
-- ballot_box/src/main.rs: `AppContext` as the service's clients can know it, without the order in
-- which the limiter keeps its addresses.
use mathlib.Core.List.{Perm, Permᴰ}
use mathlib.Core.Logic.{∥∥₁_elim}
use mathlib.Core.Quot
use mathlib.Core.Quot.{Quot, Quot-set}
use native.Mathlib.Nat.{ℕ_set}
use managed_linux_democracy.Prelude.{
  ℕ, ◌≡◌, ◌≢◌, refl, sym, ap, ◌∙◌, subst, Profile, All, List, [], ◌∷◌,
}
use managed_linux_democracy.Prelude.Text.{Unicode}
use managed_linux_democracy.Ballot.State.{ip_eq, AppContext, PossibleVote, Request}
use managed_linux_democracy.Ballot.Handler.{vote_handler}
use managed_linux_democracy.Ballot.Replies.{votes_for}
use managed_linux_democracy.Ballot.Trace.{serve}
use managed_linux_democracy.Ballot.Commuting.{Agree, vote_handler_commute, vote_handler-Agree}

-- States up to what any request can tell.
abbrev pub Tally : Type 0
Tally = Quot Agree

abbrev pub tally : AppContext → Tally
tally s = Quot.mk s

unfoldable pub votes_in : PossibleVote → Tally → ℕ
votes_in v = Quot.lift ℕ_set (votes_for v) (λ s t h. h.tallies v)

-- No two requests come from one address.
abbrev pub Apart : Request → List Request → Type 0
Apart r rs = All (λ q. r.ip ≢ q.ip) rs

abbrev pub IsApart : List Request → Type 0
IsApart [] = Unit
IsApart (r ∷ rs) = Apart r rs × IsApart rs

module _ (u : Unicode) (p : Profile) where
  pub apply : Request → Tally → Tally
  apply r =
      Quot.lift Quot-set (λ s. tally (vote_handler u p r s).0)
        (λ s t h. Quot.sound (vote_handler-Agree u p r s t h).0)

  apply_all : List Request → Tally → Tally
  apply_all [] q = q
  apply_all (r ∷ rs) q = apply_all rs (apply r q)

  apply_comm : (r q : Request) (t : Tally) → r.ip ≢ q.ip → apply q (apply r t) ≡ apply r (apply q t)
  unfolding apply
  apply_comm r q t other =
      Quot.ind (λ t. Quot-set (apply q (apply r t)) (apply r (apply q t)))
        (λ s. Quot.sound (vote_handler_commute u p r q s other)) t

  tally-serve :
      (rs : List Request) (s : AppContext) → tally (serve u p rs s).0 ≡ apply_all rs (tally s)
  unfolding serve apply_all apply
  tally-serve [] s = refl
  tally-serve (r ∷ rs) s = tally-serve rs (vote_handler u p r s).0

Apart-perm : (r : Request) {rs qs : List Request} → Permᴰ rs qs → Apart r rs → Apart r qs
Apart-perm r Permᴰ.nil h = tt
Apart-perm r (Permᴰ.cons e d) h = (subst (λ x. r.ip ≢ x.ip) e h.0, Apart-perm r d h.1)
Apart-perm r (Permᴰ.swap e f) h =
    (subst (λ x. r.ip ≢ x.ip) f h.1.0, (subst (λ x. r.ip ≢ x.ip) e h.0, h.1.1))
Apart-perm r (Permᴰ.trans d e) h = Apart-perm r e (Apart-perm r d h)

IsApart-perm : {rs qs : List Request} → Permᴰ rs qs → IsApart rs → IsApart qs
IsApart-perm Permᴰ.nil h = tt
IsApart-perm (Permᴰ.cons {a} {b} {l₁} {l₂} e d) h =
    (subst (λ x. Apart x l₂) e (Apart-perm a d h.0), IsApart-perm d h.1)
IsApart-perm (Permᴰ.swap {a} {b} {a'} {b'} {l} e f) h =
    let swapped : IsApart (b ∷ a ∷ l) = ((λ q. h.0.0 (sym q), h.1.0), (h.0.1, h.1.1)) in
    subst (λ x. IsApart (x ∷ b' ∷ l)) f (subst (λ y. IsApart (b ∷ y ∷ l)) e swapped)
IsApart-perm (Permᴰ.trans d e) h = IsApart-perm e (IsApart-perm d h)

module _ (u : Unicode) (p : Profile) where
  apply_all-perm :
      {rs qs : List Request} (t : Tally)
      → Permᴰ rs qs
      → IsApart rs
      → apply_all u p rs t ≡ apply_all u p qs t
  unfolding apply_all
  apply_all-perm t Permᴰ.nil h = refl
  apply_all-perm t (Permᴰ.cons {a} {b} {l₁} {l₂} e d) h =
      apply_all-perm (apply u p a t) d h.1 ∙ ap (λ x. apply_all u p l₂ (apply u p x t)) e
  apply_all-perm t (Permᴰ.swap {a} {b} {a'} {b'} {l} e f) h =
      ap (apply_all u p l) (apply_comm u p a b t h.0.0)
      ∙ ap (λ x. apply_all u p l (apply u p x (apply u p b t))) e
      ∙ ap (λ x. apply_all u p l (apply u p b' (apply u p x t))) f
  apply_all-perm t (Permᴰ.trans d e) h =
      apply_all-perm t d h ∙ apply_all-perm t e (IsApart-perm d h)

  -- Of requests from addresses that are all different, any order leaves the same state, up to what a
  -- request can tell; each tally is the same.
  pub serve-perm :
      (rs qs : List Request) (s : AppContext) (v : PossibleVote)
      → IsApart rs
      → Perm rs qs
      → (tally (serve u p rs s).0 ≡ tally (serve u p qs s).0)
        × (votes_for v (serve u p rs s).0 ≡ votes_for v (serve u p qs s).0)
  unfolding votes_in
  serve-perm rs qs s v apart perm =
      let same : tally (serve u p rs s).0 ≡ tally (serve u p qs s).0 =
        ∥∥₁_elim perm (Quot-set _ _) (λ d.
          tally-serve u p rs s ∙ apply_all-perm (tally s) d apart ∙ sym (tally-serve u p qs s)) in
      (same, ap (votes_in v) same)
