-- ===== src/Ballot/Address.antt =====
-- ballot_box/src/main.rs: the texts of IPv4 addresses. `main` reads one from its command line by
-- `SocketAddrV4::from_str`, and `system_handler` prints one by `to_string`.
pub mod Bounds
pub mod Decimal
pub mod RoundTrip
use managed_linux_democracy.Prelude.{
  ℕ, zero, suc, ◌+◌, ◌-◌, ◌*◌, ◌/◌, ◌%◌, ◌^◌, if◌then◌else◌, ltb, leb, eqb, Bool, true, false, ◌&&◌,
  List, [], ◌∷◌, ◌++◌, Option, none, some,
}
use managed_linux_democracy.Prelude.Text.{Text}

-- `net::SocketAddrV4`, the address a number of 32 bits and the port one of 16.
pub record SocketAddrV4 : Type 0 where
  pub ip : ℕ
  pub port : ℕ

-- The decimal digits of a number of at most `k` digits.
unfoldable pub digits : ℕ → ℕ → Text
digits zero n = []
digits (suc k) n = if ltb n 10 then (b'0' + n) ∷ [] else digits k (n / 10) ++ (b'0' + n % 10) ∷ []

-- `Display` of `u8` and of `u16`.
abbrev pub octet : ℕ → Text
octet n = digits 3 n

abbrev pub port_text : ℕ → Text
port_text n = digits 5 n

-- `Ipv4Addr::to_string`
unfoldable pub to_string : ℕ → Text
to_string ip =
    octet (ip / 2 ^ 24)
    ++ b'.'
      ∷ (octet (ip / 2 ^ 16 % 256) ++ b'.' ∷ (octet (ip / 2 ^ 8 % 256) ++ b'.' ∷ octet (ip % 256)))

-- `SocketAddrV4::to_string`
unfoldable pub socket_to_string : SocketAddrV4 → Text
socket_to_string a = to_string a.ip ++ b':' ∷ port_text a.port

abbrev pub is_digit : ℕ → Bool
is_digit c = leb b'0' c && leb c b'9'

abbrev pub has_leading_zero : Text → Bool
has_leading_zero [] = false
has_leading_zero (c ∷ s) = eqb c b'0'

-- The loop of the standard library's `read_number` with a bound on the digits: the result, the
-- number of digits and the rest.
unfoldable pub read_bounded : ℕ → ℕ → Text → Option (ℕ × ℕ × Text)
read_bounded result count [] = some (result, count, [])
read_bounded result count (c ∷ s) =
    let more = read_bounded (result * 10 + (c - b'0')) (count + 1) s in
    if is_digit c then if ltb 3 (count + 1) then none else more else some (result, count, c ∷ s)

-- The loop without a bound, with checked arithmetic on `u16`.
unfoldable pub read_checked : ℕ → ℕ → Text → Option (ℕ × ℕ × Text)
read_checked result count [] = some (result, count, [])
read_checked result count (c ∷ s) =
    let more = read_checked (result * 10 + (c - b'0')) (count + 1) s in
    if is_digit c
    then if ltb (result * 10 + (c - b'0')) (2 ^ 16) then more else none
    else some (result, count, c ∷ s)

-- An octet has at most three digits, and no zero in front of others.
unfoldable pub read_octet : Text → Option (ℕ × Text)
read_octet s = elim (read_bounded 0 0 s) [
  | none ↦ none
  | some (n, count, rest) ↦
      if eqb count 0
      then none
      else if has_leading_zero s && ltb 1 count
      then none
      else if ltb n 256
      then some (n, rest)
      else none
]

unfoldable pub read_u16 : Text → Option (ℕ × Text)
read_u16 s = elim (read_checked 0 0 s) [
  | none ↦ none
  | some (n, count, rest) ↦ if eqb count 0 then none else some (n, rest)
]

unfoldable pub read_char : ℕ → Text → Option Text
read_char c [] = none
read_char c (d ∷ s) = if eqb c d then some s else none

infixl 5 ◌>>=◌
abbrev ◌>>=◌ {ℓ κ} : {A : Type ℓ} {B : Type κ} → Option A → (A → Option B) → Option B
none >>= k = none
some a >>= k = k a

unfoldable pub read_ipv4_addr : Text → Option (ℕ × Text)
read_ipv4_addr s = do
  (a, s₁) ← read_octet s
  (b, s₂) ← read_octet (← read_char b'.' s₁)
  (c, s₃) ← read_octet (← read_char b'.' s₂)
  (d, s₄) ← read_octet (← read_char b'.' s₃)
  some (((a * 256 + b) * 256 + c) * 256 + d, s₄)

-- `SocketAddrV4::from_str`: the text is read to its end.
abbrev at_end : SocketAddrV4 × Text → Option SocketAddrV4
at_end (a, []) = some a
at_end (a, _ ∷ _) = none

unfoldable pub from_str : Text → Option SocketAddrV4
from_str s = do
  (ip, s₁) ← read_ipv4_addr s
  (port, s₂) ← read_u16 (← read_char b':' s₁)
  at_end (record { ip = ip; port = port }, s₂)
