-- ===== src/Scope/Confirm.antt =====
-- core/scope.py: `confirm_ip_scope` and `is_asn_confirmed`, and what pipelines/orchestrate.py makes
-- of the entries. `confirmed_via` is a constructor for each marker that the source writes.
pub mod Ownership
pub mod Chain
use exact_surface.Prelude.{
  ℕ, ◌≤◌, ◌+◌, String, ◌≡◌, ◌≢◌, refl, ◌↔◌, Bool, true, false, not, ◌&&◌, Option, none, some, List,
  [], ◌∷◌, ◌++◌, arith, In, here, there, All, find, find-In, map, keep, inl, inr, if◌then◌else◌,
  ◌==◌, string_eq,
}
use exact_surface.Scope.Address.{
  Version, version_beq, Address, Network, Parsers, subnet_of, parse_networks,
}
use exact_surface.Scope.Host.{Text}
use exact_surface.Scope.Engine.{
  IpClass, dedicated, cdn, hard_deny, is_cdn, Action, ActionSet, ProgramScope, full_actions,
  http_layer_actions, Engine, classify_ip,
}

pub data Via : Type 0 where
  asnmap : Network → Via
  unconfirmed pending cdn_edge_never_dedicated : Via

pub record IpScopeEntry : Type 0 where
  pub cidr : String
  pub ip_class : IpClass
  pub action_set : ActionSet
  pub confirmed_via : Via

abbrev pub is_dedicated_class : IpClass → Bool
is_dedicated_class dedicated = true
is_dedicated_class _ = false

-- `.startswith(ASN_CONFIRMED_PREFIX)`
abbrev pub by_asn : Via → Bool
by_asn (asnmap n) = true
by_asn _ = false

unfoldable pub is_asn_confirmed : IpScopeEntry → Bool
is_asn_confirmed entry = is_dedicated_class entry.ip_class && by_asn entry.confirmed_via

-- engine.classify_ip(str(net.network_address))
abbrev pub class_of : Engine → Network → IpClass
class_of e net =
    classify_ip e (e.parsers.str_address (record { version = net.version; number = net.first }))

-- What the body of the loop appends for a network that is not denied.
unfoldable pub entry_for : Parsers → IpClass → Network → Option Network → IpScopeEntry
entry_for p cls net containing =
    if is_cdn cls
    then record {
      cidr = p.str_network net;
      ip_class = cls;
      action_set = http_layer_actions;
      confirmed_via = cdn_edge_never_dedicated;
    }
    else elim containing [
      | some n ↦ record {
        cidr = p.str_network net;
        ip_class = dedicated;
        action_set = full_actions;
        confirmed_via = asnmap n;
      }
      | none ↦ record {
        cidr = p.str_network net;
        ip_class = cls;
        action_set = http_layer_actions;
        confirmed_via = unconfirmed;
      }
    ]

-- One round for a text that parsed.
unfoldable pub confirm_network : Engine → List Network → Network → List IpScopeEntry
unfolding entry_for
confirm_network e apex_nets net =
    if hard_deny (class_of e net)
    then []
    else entry_for e.parsers (class_of e net) net (find (subnet_of net) apex_nets) ∷ []

unfoldable pub confirm_all : Engine → List Network → List String → List IpScopeEntry
unfolding confirm_network
confirm_all e apex_nets [] = []
confirm_all e apex_nets (cidr ∷ rest) = elim (e.parsers.ip_network cidr) [
  | none ↦ confirm_all e apex_nets rest
  | some net ↦ confirm_network e apex_nets net ++ confirm_all e apex_nets rest
]

unfoldable pub confirm_ip_scope : Engine → List String → List String → List IpScopeEntry
unfolding confirm_all
confirm_ip_scope e requested apex_asn_ranges =
    confirm_all e (parse_networks e.parsers apex_asn_ranges) requested

-- The stored record of a program, as far as the scope is made of it.
pub record Program : Type 0 where
  pub apex_domain : Text
  pub excluded_hosts : List Text
  pub excluded_cidrs : List String
  pub scan_shared_infra : Bool
  pub scope_override : Bool

-- An authorization: its flags, and the entries of "ip_scope".
pub record Authorization : Type 0 where
  pub apex_verified : Bool
  pub revoked : Bool
  pub ip_scope : List IpScopeEntry

-- `_auth_is_current`
unfoldable pub auth_is_current : Option Authorization → Bool
auth_is_current none = false
auth_is_current (some a) = a.apex_verified && not a.revoked

-- [e["cidr"] for e in ip_scope if is_asn_confirmed(e)]
unfoldable pub confirmed_cidrs : List IpScopeEntry → List String
unfolding is_asn_confirmed
confirmed_cidrs entries = map (λ x. x.cidr) (keep is_asn_confirmed entries)

unfoldable pub dedicated_cidrs : Option Authorization → List String
unfolding confirmed_cidrs
dedicated_cidrs none = []
dedicated_cidrs (some a) = confirmed_cidrs a.ip_scope

unfoldable pub build_program_scope : Program → Option Authorization → ProgramScope
unfolding dedicated_cidrs
build_program_scope p auth = record {
  verified_apexes = p.apex_domain ∷ [];
  excluded_hosts = p.excluded_hosts;
  excluded_cidrs = p.excluded_cidrs;
  authorized_dedicated_cidrs = dedicated_cidrs auth;
  scan_shared_infra = p.scan_shared_infra;
  scope_override = p.scope_override;
}

abbrev pub or_empty : Option (List String) → List String
or_empty none = []
or_empty (some rs) = rs

-- [e.get("cidr") for e in ip_scope if e.get("cidr")]
abbrev pub requested_cidrs : List IpScopeEntry → List String
requested_cidrs entries = keep (λ c. not (c == "")) (map (λ x. x.cidr) entries)

-- `confirm_authorization_ip_scope`: `ranges` is the answer of the ASN lookup, `none` its failure.
-- An authorization that requests nothing is returned as it is.
unfoldable pub confirm_authorization : Engine → Option (List String) → Authorization → Authorization
unfolding confirm_ip_scope
confirm_authorization e ranges auth = elim (requested_cidrs auth.ip_scope) [
  | [] ↦ auth
  | c ∷ cs ↦ record auth { ip_scope = confirm_ip_scope e (c ∷ cs) (or_empty ranges) }
]
