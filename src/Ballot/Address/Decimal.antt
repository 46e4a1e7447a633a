-- ===== src/Ballot/Address/Decimal.antt =====
-- ballot_box/src/main.rs: the decimal numbers in the texts of addresses.
use mathlib.Core.List.{append_assoc}
use native.Mathlib.Nat.{pow-suc}
use managed_linux_democracy.Prelude.{
  ℕ, zero, suc, ◌+◌, ◌*◌, ◌/◌, ◌%◌, ◌^◌, ◌≤◌, ◌<◌, ◌≡◌, refl, ◌∙◌, ap, arith, if◌then◌else◌, ltb,
  Bool-cases, inl, inr, false, [], ◌∷◌, ◌++◌, some,
}
use managed_linux_democracy.Prelude.Text.{Text}
use managed_linux_democracy.Ballot.Address.{
  digits, octet, port_text, is_digit, has_leading_zero, read_bounded, read_checked, read_octet,
  read_u16,
}

-- How many digits a number has.
abbrev count_digits : ℕ → ℕ → ℕ
count_digits zero n = 0
count_digits (suc k) n = if ltb n 10 then 1 else count_digits k (n / 10) + 1

-- The text does not go on with a digit.
abbrev pub Stops : Text → Type 0
Stops [] = Unit
Stops (c ∷ s) = is_digit c ≡ false

count_digits_pos : (k n : ℕ) → 0 < count_digits (suc k) n
count_digits_pos k n = ground arith

count_digits_le : (n : ℕ) → n < 256 → count_digits 3 n ≤ 3
count_digits_le n h = ground arith

checked_step :
    (m c n : ℕ) (d : ℕ) (s : Text)
    → d < 10
    → n ≡ m * 10 + d
    → n < 2 ^ 16
    → read_checked m c ((b'0' + d) ∷ s) ≡ read_checked n (c + 1) s
unfolding read_checked
checked_step m c n d s h e fits = ground arith

bounded_step :
    (m c n : ℕ) (d : ℕ) (s : Text)
    → d < 10
    → n ≡ m * 10 + d
    → c < 3
    → read_bounded m c ((b'0' + d) ∷ s) ≡ read_bounded n (c + 1) s
unfolding read_bounded
bounded_step m c n d s h e fits = ground arith

-- Reading the digits of `n` in front of a text comes to the same as having read `n`.
checked-digits :
    (k n : ℕ) (s : Text)
    → n < 10 ^ k
    → n < 2 ^ 16
    → read_checked 0 0 (digits k n ++ s) ≡ read_checked n (count_digits k n) s
unfolding digits
checked-digits zero n s h fits = let none_left : n ≡ 0 = omega arith in rw none_left
checked-digits (suc k) n s h fits = elim (Bool-cases (ltb n 10)) [
  | inl one ↦ rw one (checked_step 0 0 n n s (ground arith) (omega arith) fits)
  | inr more ↦ rw more (
      ap (read_checked 0 0) (append_assoc (digits k (n / 10)) ((b'0' + n % 10) ∷ []) s)
      ∙ checked-digits k (n / 10) ((b'0' + n % 10) ∷ s) (omega (arith, pow-suc 10 k)) (omega arith)
      ∙ checked_step (n / 10) (count_digits k (n / 10)) n (n % 10) s (omega arith) (omega arith)
          fits)
]

bounded-digits :
    (k n : ℕ) (s : Text)
    → n < 10 ^ k
    → count_digits k n ≤ 3
    → read_bounded 0 0 (digits k n ++ s) ≡ read_bounded n (count_digits k n) s
unfolding digits
bounded-digits zero n s h fits = let none_left : n ≡ 0 = omega arith in rw none_left
bounded-digits (suc k) n s h fits = elim (Bool-cases (ltb n 10)) [
  | inl one ↦ rw one (bounded_step 0 0 n n s (ground arith) (omega arith) (omega arith))
  | inr more ↦
      let fewer : count_digits k (n / 10) + 1 ≤ 3 = rw more at fits in
      rw more (
        ap (read_bounded 0 0) (append_assoc (digits k (n / 10)) ((b'0' + n % 10) ∷ []) s)
        ∙ bounded-digits k (n / 10) ((b'0' + n % 10) ∷ s) (omega (arith, pow-suc 10 k))
            (omega arith)
        ∙ bounded_step (n / 10) (count_digits k (n / 10)) n (n % 10) s (omega arith) (omega arith)
            (omega arith))
]

-- A number above 0 is printed without a zero in front.
leading_zero-digits :
    (k n : ℕ) (s : Text) → n < 10 ^ k → 0 < n → has_leading_zero (digits k n ++ s) ≡ false
unfolding digits
leading_zero-digits zero n s h p = absurd (omega arith)
leading_zero-digits (suc k) n s h p = elim (Bool-cases (ltb n 10)) [
  | inl one ↦ rw one (ground arith)
  | inr more ↦ rw more (
      ap has_leading_zero (append_assoc (digits k (n / 10)) ((b'0' + n % 10) ∷ []) s)
      ∙ leading_zero-digits k (n / 10) ((b'0' + n % 10) ∷ s) (omega (arith, pow-suc 10 k))
          (ground arith))
]

checked_stop : (n c : ℕ) (s : Text) → Stops s → read_checked n c s ≡ some (n, c, s)
unfolding read_checked
checked_stop n c [] h = refl
checked_stop n c (d ∷ s) h = rw h

bounded_stop : (n c : ℕ) (s : Text) → Stops s → read_bounded n c s ≡ some (n, c, s)
unfolding read_bounded
bounded_stop n c [] h = refl
bounded_stop n c (d ∷ s) h = rw h

pub read_u16-port_text :
    (n : ℕ) (s : Text) → n < 2 ^ 16 → Stops s → read_u16 (port_text n ++ s) ≡ some (n, s)
unfolding read_u16
read_u16-port_text n s fits stop =
    let e : read_checked 0 0 (port_text n ++ s) ≡ some (n, count_digits 5 n, s) =
      checked-digits 5 n s (omega arith) fits ∙ checked_stop n (count_digits 5 n) s stop in
    ground (arith, e, count_digits_pos 4 n)

one_zero : (n : ℕ) → n ≡ 0 → count_digits 3 n ≡ 1
one_zero n h = rw h

pub read_octet-octet :
    (n : ℕ) (s : Text) → n < 256 → Stops s → read_octet (octet n ++ s) ≡ some (n, s)
unfolding read_octet
read_octet-octet n s fits stop =
    let e : read_bounded 0 0 (octet n ++ s) ≡ some (n, count_digits 3 n, s) =
      bounded-digits 3 n s (omega arith) (count_digits_le n fits)
      ∙ bounded_stop n (count_digits 3 n) s stop in
    ground (arith, e, count_digits_pos 2 n, one_zero n, leading_zero-digits 3 n s (omega arith))
