-- ===== src/Ballot/Server/Listening.antt =====
-- ballot_box/src/main.rs: the address that the server listens on, and the one that it shows.
use managed_linux_democracy.Prelude.{
  ℕ, ◌^◌, ◌<◌, ◌≡◌, refl, subst, arith, All, List, [], ◌∷◌, ◌++◌, Option-cases, inl, inr, some,
  returned,
}
use managed_linux_democracy.Prelude.Text.{Text}
use managed_linux_democracy.Ballot.Address.{
  SocketAddrV4, to_string, port_text, socket_to_string, from_str,
}
use managed_linux_democracy.Ballot.Address.Bounds.{from_str_fits}
use managed_linux_democracy.Ballot.Address.RoundTrip.{from_str-socket_to_string}
use managed_linux_democracy.Ballot.System.{
  NetworkInterface, v4, IsInRange, IsFirstOutside, Search, all_ips, get_local_ipv4_address,
  system_handler, get_local_ipv4_address-Search,
}
use managed_linux_democracy.Ballot.Server.{default_address, bind_address}

read_from :
    (name text : Text) (more : List Text) (a : SocketAddrV4)
    → bind_address (name ∷ text ∷ more) ≡ returned a
    → from_str text ≡ some a
unfolding bind_address
read_from name text more a h = ground arith

-- Whatever address `main` goes on with has 32 bits and a port of 16.
pub bind_address-fits :
    (args : List Text) (a : SocketAddrV4)
    → bind_address args ≡ returned a
    → (a.ip < 2 ^ 32) × (a.port < 2 ^ 16)
unfolding bind_address
bind_address-fits [] a h = ground arith
bind_address-fits (name ∷ []) a h = ground arith
bind_address-fits (name ∷ text ∷ more) a h = from_str_fits text a (read_from name text more a h)

-- With an address in its printed form as the first argument, `main` listens on this address; with no
-- argument, on port 8080 of every interface.
pub bind_address-socket_to_string :
    (name : Text) (a : SocketAddrV4) (more : List Text)
    → a.ip < 2 ^ 32
    → a.port < 2 ^ 16
    → (bind_address (name ∷ socket_to_string a ∷ more) ≡ returned a)
      × (bind_address (name ∷ []) ≡ returned default_address)
unfolding bind_address
bind_address-socket_to_string name a more fits fits' =
    (rw (from_str-socket_to_string a fits fits', bind_address), refl)

All-middle {ℓ κ} :
    {A : Type ℓ} (P : A → Type κ) (before after : List A) (x : A)
    → All P (before ++ x ∷ after)
    → P x
All-middle P [] after x h = h.0
All-middle P (y ∷ before) after x h = All-middle P before after x h.1

shown_of :
    (interfaces : List NetworkInterface) (shown : Text)
    → system_handler interfaces ≡ returned (record { address = shown })
    → (ip : ℕ) × (get_local_ipv4_address interfaces ≡ some ip) × (to_string ip ≡ shown)
unfolding system_handler
shown_of interfaces shown h = elim (Option-cases (get_local_ipv4_address interfaces)) [
  | inl nothing ↦ absurd (ground arith)
  | inr (ip, found) ↦ (ip, found, ground arith)
]

-- The address that `system_handler` shows is that of the first IPv4 address of the machine outside
-- loopback, and with a port behind it, it is read back as this address.
pub from_str-system_handler :
    (interfaces : List NetworkInterface) (shown : Text) (port : ℕ)
    → All IsInRange (all_ips interfaces)
    → port < 2 ^ 16
    → system_handler interfaces ≡ returned (record { address = shown })
    → (ip : ℕ) × IsFirstOutside ip (all_ips interfaces)
      × (from_str (shown ++ b':' ∷ port_text port) ≡ some (record { ip = ip; port = port }))
unfolding socket_to_string
from_str-system_handler interfaces shown port fits fits' h =
    let (ip, found, same) = shown_of interfaces shown h in
    let first : IsFirstOutside ip (all_ips interfaces) =
      subst (Search (all_ips interfaces)) found (get_local_ipv4_address-Search interfaces) in
    let own : ip < 2 ^ 32 =
      All-middle IsInRange first.before first.after (v4 ip first.prefix)
        (subst (All IsInRange) first.split fits) in
    (
      ip,
      first,
      subst (λ t. from_str (t ++ b':' ∷ port_text port) ≡ some (record { ip = ip; port = port }))
          same (from_str-socket_to_string (record { ip = ip; port = port }) own fits'),
    )
