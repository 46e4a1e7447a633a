-- ===== src/Ballot/Address/RoundTrip.antt =====
-- ballot_box/src/main.rs: the address on the command line.
use mathlib.Core.List.{append_assoc, append-nil}
use managed_linux_democracy.Prelude.{
  ℕ, ◌+◌, ◌*◌, ◌/◌, ◌%◌, ◌^◌, ◌<◌, ◌≡◌, refl, sym, ◌∙◌, ap, arith, [], ◌∷◌, ◌++◌, some,
}
use managed_linux_democracy.Prelude.Text.{Text}
use managed_linux_democracy.Ballot.Address.{
  SocketAddrV4, octet, port_text, to_string, socket_to_string, read_octet, read_u16, read_char,
  read_ipv4_addr, from_str,
}
use managed_linux_democracy.Ballot.Address.Decimal.{Stops, read_octet-octet, read_u16-port_text}

read_ipv4_addr-octets :
    (a b c d : ℕ) (s : Text)
    → a < 256
    → b < 256
    → c < 256
    → d < 256
    → Stops s
    → read_ipv4_addr (octet a ++ b'.' ∷ (octet b ++ b'.' ∷ (octet c ++ b'.' ∷ (octet d ++ s))))
      ≡ some (((a * 256 + b) * 256 + c) * 256 + d, s)
unfolding read_ipv4_addr read_char
read_ipv4_addr-octets a b c d s ha hb hc hd stop = rw (
  read_octet-octet a (b'.' ∷ (octet b ++ b'.' ∷ (octet c ++ b'.' ∷ (octet d ++ s)))) ha refl,
  read_octet-octet b (b'.' ∷ (octet c ++ b'.' ∷ (octet d ++ s))) hb refl,
  read_octet-octet c (b'.' ∷ (octet d ++ s)) hc refl,
  read_octet-octet d s hd stop,
)

read_ipv4_addr-to_string :
    (ip : ℕ) (s : Text) → ip < 2 ^ 32 → Stops s → read_ipv4_addr (to_string ip ++ s) ≡ some (ip, s)
unfolding to_string
read_ipv4_addr-to_string ip s fits stop =
    let whole : ((ip / 2 ^ 24 * 256 + ip / 2 ^ 16 % 256) * 256 + ip / 2 ^ 8 % 256) * 256 + ip % 256
        ≡ ip =
      omega arith in
    simp append_assoc (
      read_ipv4_addr-octets (ip / 2 ^ 24) (ip / 2 ^ 16 % 256) (ip / 2 ^ 8 % 256) (ip % 256) s
        (omega arith) (omega arith) (omega arith) (omega arith) stop
      ∙ ap (λ n. some (n, s)) whole)

-- Every address and port are read back from the text that they are printed as.
pub from_str-socket_to_string :
    (a : SocketAddrV4) → a.ip < 2 ^ 32 → a.port < 2 ^ 16 → from_str (socket_to_string a) ≡ some a
unfolding from_str socket_to_string read_char
from_str-socket_to_string a fits fits' =
    let port : read_u16 (port_text a.port) ≡ some (a.port, []) =
      ap read_u16 (sym (append-nil (port_text a.port))) ∙ read_u16-port_text a.port [] fits' tt in
    rw (read_ipv4_addr-to_string a.ip (b':' ∷ port_text a.port) fits refl, port)

-- What is read is an address of 32 bits and a port of 16.
octet_fits : (s rest : Text) (n : ℕ) → read_octet s ≡ some (n, rest) → n < 256
unfolding read_octet
octet_fits s rest n h = ground arith
