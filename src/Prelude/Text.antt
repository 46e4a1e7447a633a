-- ===== src/Prelude/Text.antt =====
-- Text as a list of Unicode code points, and `str::to_lowercase`.
use Prim.Native.Nat.{ℕ, ◌+◌, ◌≤◌, ◌<◌}
use Prim.Native.Char.{code}
use Prim.Native.String.{String}
use mathlib.Core.Path.{◌≡◌, refl}
use mathlib.Core.Logic.{◌↔◌, ◌⊎◌, ◌≢◌, inl, inr}
use mathlib.Core.Bool.{Bool, true, false, ◌&&◌}
use mathlib.Core.List.{List, [], ◌∷◌, ◌++◌}
use native.Mathlib.Omega.{arith}
use managed_linux_democracy.Prelude.Tests.{PartialEq, leb, ltb, eqb, Bool-cases, if◌then◌else◌}

abbrev pub Text : Type 0
Text = List ℕ

abbrev pub codes : String → Text
codes String.[] = []
codes (String.◌∷◌ c s) = code c ∷ codes s

unfoldable pub text_eqb : Text → Text → Bool
text_eqb [] [] = true
text_eqb (x ∷ xs) (y ∷ ys) = eqb x y && text_eqb xs ys
text_eqb _ _ = false

pub text_eqb_iff : (s t : Text) → (text_eqb s t ≡ true) ↔ (s ≡ t)
unfolding text_eqb
text_eqb_iff [] [] = ground arith
text_eqb_iff [] (y ∷ ys) = ground arith
text_eqb_iff (x ∷ xs) [] = ground arith
text_eqb_iff (x ∷ xs) (y ∷ ys) = ground (arith, text_eqb_iff xs ys)

instance abbrev pub text_eq : PartialEq Text
text_eq = record { same = text_eqb; same_iff = text_eqb_iff }

-- ASCII letters fall by 32; the other ASCII characters stay.
abbrev pub ascii_lower : ℕ → ℕ
ascii_lower c = if leb b'A' c && leb c b'Z' then c + 32 else c

-- The text begins with a code point outside ASCII, or with `i` or `k`.
abbrev pub StartsOutside : Text → Type 0
StartsOutside [] = ⊥
StartsOutside (c ∷ _) = (128 ≤ c) ⊎ (c ≡ b'i') ⊎ (c ≡ b'k')

-- The part of `str::to_lowercase` that is Unicode's data: the lower case of a character outside
-- ASCII, between the characters before it (the last one first) and those after it, on which the
-- final sigma depends. In Unicode's tables only the dotted capital I and the Kelvin sign have a
-- lower case that begins in ASCII, with `i` and `k`.
pub record Unicode : Type 0 where
  pub lower : Text → ℕ → Text → Text
  pub lower_starts :
      (before : Text) (c : ℕ) (after : Text) → 128 ≤ c → StartsOutside (lower before c after)

-- Letter by letter `s` is `w` with any of its letters in upper case.
abbrev pub Spells : Text → Text → Type 0
Spells [] [] = Unit
Spells (c ∷ s) (d ∷ w) = ((c ≡ d) ⊎ ((b'A' ≤ c) × (c ≤ b'Z') × (c + 32 ≡ d))) × Spells s w
Spells _ _ = ⊥

-- ASCII that is its own lower case, without `i` and `k`.
abbrev pub IsPlain : Text → Type 0
IsPlain [] = Unit
IsPlain (d ∷ w) = ((d < 128) × (d < b'A' ⊎ b'Z' < d) × (d ≢ b'i') × (d ≢ b'k')) × IsPlain w

not-StartsOutside : (l rest w : Text) → StartsOutside l → IsPlain w → l ++ rest ≡ w → ⊥
not-StartsOutside [] rest w o p e = o
not-StartsOutside (c ∷ l) rest [] o p e = cc
not-StartsOutside (c ∷ l) rest (d ∷ w) o p e = ground arith

module _ (u : Unicode) where
  pub lower_from : Text → Text → Text
  lower_from before [] = []
  lower_from before (c ∷ cs) =
      (if ltb c 128 then ascii_lower c ∷ [] else u.lower before c cs) ++ lower_from (c ∷ before) cs

  unfoldable pub to_lowercase : Text → Text
  unfolding lower_from
  to_lowercase s = lower_from [] s

  lower_outside :
      (before : Text) (c : ℕ) (s w : Text)
      → IsPlain w
      → 128 ≤ c
      → u.lower before c s ++ lower_from (c ∷ before) s ≡ w
      → ⊥
  lower_outside before c s w p h =
      not-StartsOutside (u.lower before c s) (lower_from (c ∷ before) s) w
        (u.lower_starts before c s h) p

  lower_from-Spells : (before s w : Text) → IsPlain w → lower_from before s ≡ w → Spells s w
  unfolding lower_from
  lower_from-Spells before [] [] p e = tt
  lower_from-Spells before [] (d ∷ w) p e = cc
  lower_from-Spells before (c ∷ s) [] p e = elim (Bool-cases (ltb c 128)) [
    | inl ascii ↦ let f : ascii_lower c ∷ lower_from (c ∷ before) s ≡ [] = rw ascii at e in cc
    | inr outside ↦ absurd (lower_outside before c s [] p (ground arith) (rw outside at e))
  ]
  lower_from-Spells before (c ∷ s) (d ∷ w) p e = elim (Bool-cases (ltb c 128)) [
    | inl ascii ↦
        let f : ascii_lower c ∷ lower_from (c ∷ before) s ≡ d ∷ w = rw ascii at e in
        ground (arith, lower_from-Spells (c ∷ before) s w)
    | inr outside ↦ absurd (lower_outside before c s (d ∷ w) p (ground arith) (rw outside at e))
  ]

  Spells-lower_from : (before s w : Text) → IsPlain w → Spells s w → lower_from before s ≡ w
  unfolding lower_from
  Spells-lower_from before [] [] p h = refl
  Spells-lower_from before [] (d ∷ w) p h = absurd h
  Spells-lower_from before (c ∷ s) [] p h = absurd h
  Spells-lower_from before (c ∷ s) (d ∷ w) p h =
      ground (arith, Spells-lower_from (c ∷ before) s w p.1 h.1)

  -- A text is lowered to a plain text exactly when it spells that text in any case.
  pub to_lowercase_iff : (s w : Text) → IsPlain w → (to_lowercase s ≡ w) ↔ Spells s w
  unfolding to_lowercase
  to_lowercase_iff s w p = (lower_from-Spells [] s w p, Spells-lower_from [] s w p)
