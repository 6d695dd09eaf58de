-- ===== src/Scope/Address.antt =====
-- The addresses and networks that core/scope.py reads through Python's `ipaddress`. An address is
-- a version and a number, a network a version, its first number and its size. The texts are parsed
-- by the parameter `Parsers`, and so are the registries `is_private` and `is_reserved`, whose
-- tables differ between the releases of Python.
use exact_surface.Prelude.{
  ℕ, ◌+◌, ◌*◌, ◌^◌, String, Bool, true, false, ◌&&◌, Option, none, some, List, [], ◌∷◌, ltb, leb,
  nat_beq, any,
}

pub data Version : Type 0 where
  v4 v6 : Version

abbrev pub version_beq : Version → Version → Bool
version_beq v4 v4 = true
version_beq v6 v6 = true
version_beq _ _ = false

pub record Address : Type 0 where
  pub version : Version
  pub number : ℕ

pub record Network : Type 0 where
  pub version : Version
  pub first : ℕ
  pub size : ℕ

-- `addr in net`, for an address of the network's version.
abbrev pub within : ℕ → ℕ → ℕ → Bool
within first size n = leb first n && ltb n (first + size)

-- `addr.version == net.version and addr in net`
unfoldable pub in_network : Address → Network → Bool
in_network a n = version_beq a.version n.version && within n.first n.size a.number

-- `n.version == net.version and net.subnet_of(n)`
unfoldable pub subnet_of : Network → Network → Bool
subnet_of a b =
    version_beq b.version a.version
    && (leb b.first a.first && leb (a.first + a.size) (b.first + b.size))

abbrev pub ipv4 : ℕ → ℕ → ℕ → ℕ → ℕ
ipv4 a b c d = a * 2 ^ 24 + b * 2 ^ 16 + c * 2 ^ 8 + d

-- `ipaddress.ip_network("100.64.0.0/10")`
abbrev pub cgnat_network : Network
cgnat_network = record { version = v4; first = ipv4 100 64 0 0; size = 2 ^ 22 }

-- The properties whose ranges are fixed: 0.0.0.0 and ::, 127.0.0.0/8 and ::1, 169.254.0.0/16 and
-- fe80::/10, 224.0.0.0/4 and ff00::/8.
abbrev pub is_unspecified : Address → Bool
is_unspecified a = nat_beq a.number 0

abbrev pub loopback_in : Version → ℕ → Bool
loopback_in v4 n = within (ipv4 127 0 0 0) (2 ^ 24) n
loopback_in v6 n = nat_beq n 1

unfoldable pub is_loopback : Address → Bool
is_loopback a = loopback_in a.version a.number

abbrev pub link_local_in : Version → ℕ → Bool
link_local_in v4 n = within (ipv4 169 254 0 0) (2 ^ 16) n
link_local_in v6 n = within (1018 * 2 ^ 118) (2 ^ 118) n

unfoldable pub is_link_local : Address → Bool
is_link_local a = link_local_in a.version a.number

abbrev pub multicast_in : Version → ℕ → Bool
multicast_in v4 n = within (ipv4 224 0 0 0) (2 ^ 28) n
multicast_in v6 n = within (255 * 2 ^ 120) (2 ^ 120) n

unfoldable pub is_multicast : Address → Bool
is_multicast a = multicast_in a.version a.number

-- What the interpreter's library provides.
pub record Parsers : Type 0 where
  pub ip_address : String → Option Address  -- `none` is the ValueError
  pub ip_network : String → Option Network  -- with strict=False
  pub str_address : Address → String  -- str(addr)
  pub str_network : Network → String  -- str(net)
  pub is_private : Address → Bool
  pub is_reserved : Address → Bool

-- `_parse_networks`: what does not parse is left out.
unfoldable pub parse_networks : Parsers → List String → List Network
parse_networks p [] = []
parse_networks p (cidr ∷ rest) = elim (p.ip_network cidr) [
  | none ↦ parse_networks p rest
  | some net ↦ net ∷ parse_networks p rest
]

-- any(addr.version == n.version and addr in n for n in nets)
abbrev pub in_any : Address → List Network → Bool
in_any a nets = any (in_network a) nets
