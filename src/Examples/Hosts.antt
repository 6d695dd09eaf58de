-- ===== src/Examples/Hosts.antt =====
-- A program for a.b whose ranges were confirmed, and hosts of it.
use exact_surface.Prelude.{
  ℕ, leb, String, ◌≡◌, refl, true, false, Option, none, some, List, [], ◌∷◌, inl, inr, here, there,
  All, if◌then◌else◌, ◌==◌, string_eq, Bool-cases,
}
use exact_surface.Scope.Address.{
  subnet_of, in_network, is_multicast, is_loopback, Address, Network, Parsers, v4, ipv4,
  parse_networks, is_link_local,
}
use exact_surface.Scope.Host.{Text, normal, owns_host, on_exclusion_list}
use exact_surface.Scope.Engine.{
  active_scan, passive_recon, ProgramScope, Engine, classify_ip, evaluate, dedicated, full_actions,
}
use exact_surface.Scope.Grants.{
  verdict_permits, Admits, Grounds, evaluate_sound, evaluate_complete, evaluate-antitone,
  evaluate-cdn,
}
use exact_surface.Scope.Denial.{refuses, evaluate-metadata}
use exact_surface.Scope.Confirm.{
  pending, Program, Authorization, build_program_scope, confirm_authorization, or_empty,
}
use exact_surface.Scope.Confirm.Chain.{aggressive-IsAnnounced, IsAnnounced, ReadsNetworks}

abbrev v4_address : ℕ → Address
v4_address n = record { version = v4; number = n }

abbrev office : Network
office = record { version = v4; first = ipv4 198 51 100 0; size = 256 }

abbrev edge : Network
edge = record { version = v4; first = ipv4 104 16 0 0; size = 65536 }

abbrev parse_address : String → Option Address
parse_address s =
    if s == "198.51.100.7"
    then some (v4_address (ipv4 198 51 100 7))
    else if s == "169.254.169.254"
    then some (v4_address (ipv4 169 254 169 254))
    else if s == "10.0.0.1"
    then some (v4_address (ipv4 10 0 0 1))
    else if s == "104.16.0.1"
    then some (v4_address (ipv4 104 16 0 1))
    else if s == "198.51.100.0"
    then some (v4_address (ipv4 198 51 100 0))
    else none

abbrev parse_network : String → Option Network
parse_network s = if s == "198.51.100.0/24" then some office else none

abbrev parsers : Parsers
parsers = record {
  ip_address = parse_address;
  ip_network = parse_network;
  str_address = λ a. "198.51.100.0";
  str_network = λ n. "198.51.100.0/24";
  is_private =
      λ a. elim (parse_address "10.0.0.1") [ none ↦ false | some b ↦ leb a.number b.number ];
  is_reserved = λ a. false;
}

abbrev pub engine : Engine
engine = record {
  parsers = parsers;
  cdn_ranges = edge ∷ [];
  cloud_ranges = [];
  allow_private = false;
}

abbrev apex : Text
apex = b'a' ∷ b'.' ∷ b'b' ∷ []

abbrev pub www : Text
www = b'w' ∷ b'.' ∷ apex

abbrev other : Text
other = b'a' ∷ b'.' ∷ b'c' ∷ []

abbrev pub program : Program
program = record {
  apex_domain = apex;
  excluded_hosts = (b'x' ∷ b'.' ∷ apex) ∷ [];
  excluded_cidrs = [];
  scan_shared_infra = false;
  scope_override = false;
}

abbrev pub authorization : Authorization
authorization = record {
  apex_verified = true;
  revoked = false;
  ip_scope =
      record {
        cidr = "198.51.100.0/24";
        ip_class = dedicated;
        action_set = full_actions;
        confirmed_via = pending;
      }
      ∷ [];
}

abbrev pub announced : Option (List String)
announced = some ("198.51.100.0/24" ∷ [])

abbrev scope : ProgramScope
scope = record {
  verified_apexes = apex ∷ [];
  excluded_hosts = (b'x' ∷ b'.' ∷ apex) ∷ [];
  excluded_cidrs = "198.51.100.0/24" ∷ [];
  authorized_dedicated_cidrs = "198.51.100.0/24" ∷ [];
  scan_shared_infra = false;
  scope_override = true;
}

prints_back :
    (c : String) (n : Network)
    → engine.parsers.ip_network c ≡ some n
    → engine.parsers.ip_network (engine.parsers.str_network n) ≡ some n
prints_back c n h = elim (Bool-cases (c == "198.51.100.0/24")) [
  | inl t ↦ rw t at h
  | inr f ↦ cc (rw f at h)
]

pub reads_networks : ReadsNetworks engine
reads_networks = record { prints_back = prints_back; no_empty = refl }

aggressive-IsAnnounced_example : All (IsAnnounced engine (or_empty announced)) ("198.51.100.7" ∷ [])
unfolding evaluate build_program_scope confirm_authorization owns_host on_exclusion_list is_loopback
    is_link_local is_multicast in_network parse_networks subnet_of
aggressive-IsAnnounced_example =
    aggressive-IsAnnounced engine program authorization announced www "198.51.100.7" [] active_scan
      reads_networks refl refl refl refl refl

evaluate_sound_example :
    Admits engine scope www × Grounds engine scope ("10.0.0.1" ∷ []) active_scan
unfolding evaluate owns_host on_exclusion_list is_loopback is_link_local is_multicast in_network
    parse_networks
evaluate_sound_example = evaluate_sound engine scope www ("10.0.0.1" ∷ []) active_scan refl

www-Admits : Admits engine scope www
unfolding normal owns_host on_exclusion_list
www-Admits = record { authority = inr refl; not_listed = refl }

evaluate_complete_example : verdict_permits (evaluate engine scope www []) passive_recon ≡ true
evaluate_complete_example = evaluate_complete engine scope www [] passive_recon www-Admits refl

evaluate-antitone_example :
    verdict_permits (evaluate engine scope www ("10.0.0.1" ∷ "10.0.0.1" ∷ [])) active_scan ≡ true
unfolding evaluate owns_host on_exclusion_list is_loopback is_link_local is_multicast in_network
    parse_networks
evaluate-antitone_example =
    evaluate-antitone engine scope www ("104.16.0.1" ∷ "10.0.0.1" ∷ []) "10.0.0.1" ("10.0.0.1" ∷ [])
      active_scan (λ ip m. elim m [ here e ↦ there (here e) | there k ↦ there k ]) refl

evaluate-cdn_example :
    verdict_permits
      (evaluate engine (build_program_scope program none) www ("198.51.100.7" ∷ "104.16.0.1" ∷ []))
      active_scan
    ≡ false
unfolding classify_ip build_program_scope is_loopback is_link_local is_multicast in_network
evaluate-cdn_example =
    evaluate-cdn engine (build_program_scope program none) www ("198.51.100.7" ∷ "104.16.0.1" ∷ [])
      "104.16.0.1" active_scan (there (here refl)) refl refl refl

evaluate-metadata_example :
    refuses (evaluate engine scope www ("10.0.0.1" ∷ "169.254.169.254" ∷ [])) ≡ true
unfolding is_link_local
evaluate-metadata_example =
    evaluate-metadata engine scope www ("10.0.0.1" ∷ "169.254.169.254" ∷ []) "169.254.169.254"
      (v4_address (ipv4 169 254 169 254)) (there (here refl)) refl refl
