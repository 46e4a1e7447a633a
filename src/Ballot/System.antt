-- ===== src/Ballot/System.antt =====
-- ballot_box/src/main.rs: `get_local_ipv4_address` and `system_handler`. The crate `pnet` lists the
-- network interfaces, so the list is an argument.
use managed_linux_democracy.Prelude.{
  ℕ, ◌/◌, ◌^◌, ◌<◌, ◌≡◌, refl, ap, if◌then◌else◌, eqb, Bool, true, false, Bool-cases, inl, inr,
  List, [], ◌∷◌, ◌++◌, All, Option, none, some, Outcome, returned, panicked,
}
use managed_linux_democracy.Prelude.Text.{Text}
use managed_linux_democracy.Ballot.Address.{to_string}

-- `pnet::ipnetwork::IpNetwork`: an address, with the length of its prefix.
pub data IpNetwork : Type 0 where
  v4 : ℕ → ℕ → IpNetwork
  v6 : ℕ → ℕ → IpNetwork

pub record NetworkInterface : Type 0 where
  pub ips : List IpNetwork

-- `Ipv4Addr::is_loopback`: 127.0.0.0/8.
abbrev pub is_loopback : ℕ → Bool
is_loopback ip = eqb (ip / 2 ^ 24) 127

-- The inner loop, and `next`, the rest of the outer one.
unfoldable pub first_of_ips : List IpNetwork → Option ℕ → Option ℕ
first_of_ips [] next = next
first_of_ips (v4 ip _ ∷ ips) next = if is_loopback ip then first_of_ips ips next else some ip
first_of_ips (v6 _ _ ∷ ips) next = first_of_ips ips next

unfoldable pub get_local_ipv4_address : List NetworkInterface → Option ℕ
unfolding first_of_ips
get_local_ipv4_address [] = none
get_local_ipv4_address (interface ∷ interfaces) =
    first_of_ips interface.ips (get_local_ipv4_address interfaces)

pub record SystemResponse : Type 0 where
  pub address : Text

-- The `unwrap` panics where there is no address.
unfoldable pub system_handler : List NetworkInterface → Outcome SystemResponse
system_handler interfaces = elim (get_local_ipv4_address interfaces) [
  | none ↦ panicked
  | some address ↦ returned (record { address = to_string address })
]

-- An IPv4 address has 32 bits.
abbrev pub IsInRange : IpNetwork → Type 0
IsInRange (v4 ip _) = ip < 2 ^ 32
IsInRange (v6 _ _) = Unit

-- Not an address that the loop returns.
abbrev pub IsPassedOver : IpNetwork → Type 0
IsPassedOver (v4 ip _) = is_loopback ip ≡ true
IsPassedOver (v6 _ _) = Unit

-- All addresses of the machine, in the order of its interfaces.
abbrev pub all_ips : List NetworkInterface → List IpNetwork
all_ips [] = []
all_ips (interface ∷ interfaces) = interface.ips ++ all_ips interfaces

-- `ip` is the first IPv4 address among them that is no loopback address.
pub record IsFirstOutside (ip : ℕ) (ips : List IpNetwork) : Type 0 where
  pub prefix : ℕ
  pub before : List IpNetwork
  pub after : List IpNetwork
  pub split : ips ≡ before ++ v4 ip prefix ∷ after
  pub outside : is_loopback ip ≡ false
  pub passed_over : All IsPassedOver before

-- What a search of `ips` may have found.
abbrev pub Search : List IpNetwork → Option ℕ → Type 0
Search ips none = All IsPassedOver ips
Search ips (some ip) = IsFirstOutside ip ips

Search-cons :
    (x : IpNetwork) (ips : List IpNetwork) (o : Option ℕ)
    → IsPassedOver x
    → Search ips o
    → Search (x ∷ ips) o
Search-cons x ips none h s = (h, s)
Search-cons x ips (some ip) h s = record {
  prefix = s.prefix;
  before = x ∷ s.before;
  after = s.after;
  split = ap (λ l. x ∷ l) s.split;
  outside = s.outside;
  passed_over = (h, s.passed_over);
}

first_of_ips-Search :
    (ips rest : List IpNetwork) (next : Option ℕ)
    → Search rest next
    → Search (ips ++ rest) (first_of_ips ips next)
unfolding first_of_ips
first_of_ips-Search [] rest next h = h
first_of_ips-Search (v4 ip n ∷ ips) rest next h = elim (Bool-cases (is_loopback ip)) [
  | inl loopback ↦
      rw (loopback, first_of_ips)
        (Search-cons (v4 ip n) (ips ++ rest) _ loopback (first_of_ips-Search ips rest next h))
  | inr outside ↦
      rw (outside, first_of_ips)
        (record {
          prefix = n;
          before = [];
          after = ips ++ rest;
          split = refl;
          outside = outside;
          passed_over = tt;
        })
]
first_of_ips-Search (v6 ip n ∷ ips) rest next h =
    Search-cons (v6 ip n) (ips ++ rest) _ tt (first_of_ips-Search ips rest next h)

-- The address is the first IPv4 address of the machine, in the order of its interfaces, that is no
-- loopback address; there is none exactly when every address is IPv6 or a loopback address.
pub get_local_ipv4_address-Search :
    (interfaces : List NetworkInterface)
    → Search (all_ips interfaces) (get_local_ipv4_address interfaces)
unfolding get_local_ipv4_address
get_local_ipv4_address-Search [] = tt
get_local_ipv4_address-Search (interface ∷ interfaces) =
    first_of_ips-Search interface.ips (all_ips interfaces) (get_local_ipv4_address interfaces)
      (get_local_ipv4_address-Search interfaces)
