-- ===== src/Ballot/Address/Bounds.antt =====
-- ballot_box/src/main.rs: what is read as an address is in range.
use managed_linux_democracy.Prelude.{
  ℕ, ◌+◌, ◌-◌, ◌*◌, ◌^◌, ◌<◌, ◌≡◌, refl, subst, arith, [], ◌∷◌, Option, Option-cases, inl, inr,
  none, some,
}
use managed_linux_democracy.Prelude.Text.{Text}
use managed_linux_democracy.Ballot.Address.{
  SocketAddrV4, read_checked, read_octet, read_u16, read_char, read_ipv4_addr, at_end, ◌>>=◌,
  from_str,
}

checked_fits :
    (result count : ℕ) (s : Text) (n c : ℕ) (rest : Text)
    → result < 2 ^ 16
    → read_checked result count s ≡ some (n, c, rest)
    → n < 2 ^ 16
unfolding read_checked
checked_fits result count [] n c rest fits h = ground arith
checked_fits result count (d ∷ s) n c rest fits h =
    ground (arith, checked_fits (result * 10 + (d - b'0')) (count + 1) s n c rest)

u16_fits : (s rest : Text) (n : ℕ) → read_u16 s ≡ some (n, rest) → n < 2 ^ 16
unfolding read_u16
u16_fits s rest n h = elim (Option-cases (read_checked 0 0 s)) [
  | inl nothing ↦ absurd (ground arith)
  | inr ((m, c, left), found) ↦ ground (arith, checked_fits 0 0 s m c left (omega arith) found)
]

octet_fits : (s rest : Text) (n : ℕ) → read_octet s ≡ some (n, rest) → n < 256
unfolding read_octet
octet_fits s rest n h = ground arith

>>=-eq-some {ℓ κ} :
    {A : Type ℓ} {B : Type κ} (m : Option A) (k : A → Option B) {b : B}
    → (m >>= k) ≡ some b
    → (a : A) × (m ≡ some a) × (k a ≡ some b)
>>=-eq-some none k h = cc
>>=-eq-some (some a) k h = (a, refl, h)

ipv4_fits : (s rest : Text) (ip : ℕ) → read_ipv4_addr s ≡ some (ip, rest) → ip < 2 ^ 32
unfolding read_ipv4_addr
ipv4_fits s rest ip h =
    let ((a, s₁), ha, h₁) = >>=-eq-some (read_octet s) _ h in
    let (t₁, d₁, k₁) = >>=-eq-some (read_char b'.' s₁) _ h₁ in
    let ((b, s₂), hb, h₂) = >>=-eq-some (read_octet t₁) _ k₁ in
    let (t₂, d₂, k₂) = >>=-eq-some (read_char b'.' s₂) _ h₂ in
    let ((c, s₃), hc, h₃) = >>=-eq-some (read_octet t₂) _ k₂ in
    let (t₃, d₃, k₃) = >>=-eq-some (read_char b'.' s₃) _ h₃ in
    let ((d, s₄), hd, h₄) = >>=-eq-some (read_octet t₃) _ k₃ in
    let same : ((a * 256 + b) * 256 + c) * 256 + d ≡ ip = ground arith in
    omega (
      arith,
      octet_fits s s₁ a ha,
      octet_fits t₁ s₂ b hb,
      octet_fits t₂ s₃ c hc,
      octet_fits t₃ s₄ d hd,
    )

at_end_same : (a b : SocketAddrV4) (s : Text) → at_end (a, s) ≡ some b → a ≡ b
at_end_same a b [] h = ground arith
at_end_same a b (c ∷ s) h = cc

pub from_str_fits :
    (s : Text) (a : SocketAddrV4) → from_str s ≡ some a → (a.ip < 2 ^ 32) × (a.port < 2 ^ 16)
unfolding from_str
from_str_fits s a h =
    let ((ip, s₁), hip, h₁) = >>=-eq-some (read_ipv4_addr s) _ h in
    let (t₁, d₁, k₁) = >>=-eq-some (read_char b':' s₁) _ h₁ in
    let ((port, s₂), hport, h₂) = >>=-eq-some (read_u16 t₁) _ k₁ in
    let same : record { ip = ip; port = port } ≡ a =
      at_end_same (record { ip = ip; port = port }) a s₂ h₂ in
    subst (λ x. (x.ip < 2 ^ 32) × (x.port < 2 ^ 16)) same
      (ipv4_fits s s₁ ip hip, u16_fits t₁ s₂ port hport)
