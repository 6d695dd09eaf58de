-- ===== src/Scope/Engine.antt =====
-- core/scope.py: address classes, actions, `ScopeEngine.classify_ip` and `ScopeEngine.evaluate`.
-- A reason is a constructor for each message; the addresses and classes that a message quotes are
-- its arguments.
use exact_surface.Prelude.{
  String, Bool, true, false, not, ◌&&◌, ◌||◌, Option, none, some, List, [], ◌∷◌, ◌++◌,
  if◌then◌else◌,
}
use exact_surface.Scope.Address.{
  Address, Network, Parsers, in_network, in_any, parse_networks, cgnat_network, is_unspecified,
  is_loopback, is_link_local, is_multicast,
}
use exact_surface.Scope.Host.{Text, normal, owns_host, on_exclusion_list}

pub data IpClass : Type 0 where
  dedicated cdn cloud_shared public private loopback link_local cgnat multicast reserved : IpClass
  unspecified : IpClass

-- `cls in HARD_DENY`
abbrev pub hard_deny : IpClass → Bool
hard_deny private = true
hard_deny loopback = true
hard_deny link_local = true
hard_deny cgnat = true
hard_deny multicast = true
hard_deny reserved = true
hard_deny unspecified = true
hard_deny _ = false

-- `cls in NEVER_OVERRIDABLE`
abbrev pub never_overridable : IpClass → Bool
never_overridable link_local = true
never_overridable _ = false

abbrev pub is_private_class : IpClass → Bool
is_private_class private = true
is_private_class _ = false

abbrev pub is_cdn : IpClass → Bool
is_cdn cdn = true
is_cdn _ = false

abbrev pub is_shared : IpClass → Bool
is_shared cloud_shared = true
is_shared public = true
is_shared _ = false

pub data Action : Type 0 where
  passive_recon http_probe tls_inspect port_scan content_discovery active_scan : Action

-- The action sets are frozensets, read by `action in self.actions`.
abbrev pub ActionSet : Type 0
ActionSet = Action → Bool

abbrev pub full_actions : ActionSet
full_actions _ = true

abbrev pub http_layer_actions : ActionSet
http_layer_actions passive_recon = true
http_layer_actions http_probe = true
http_layer_actions tls_inspect = true
http_layer_actions _ = false

abbrev pub passive_only : ActionSet
passive_only passive_recon = true
passive_only _ = false

abbrev pub no_actions : ActionSet
no_actions _ = false

pub record ProgramScope : Type 0 where
  pub verified_apexes : List Text
  pub excluded_hosts : List Text
  pub excluded_cidrs : List String
  pub authorized_dedicated_cidrs : List String
  pub scan_shared_infra : Bool
  pub scope_override : Bool

pub data Reason : Type 0 where
  not_under_apex host_excluded no_ips override_granted all_dedicated shared_http_only : Reason
  metadata_denied : String → Reason
  internal_ip : String → IpClass → Reason
  cidr_excluded : String → Reason

pub record ScopeDecision : Type 0 where
  pub host : Text
  pub allowed : Bool
  pub reason : Reason
  pub ip_class : Option IpClass
  pub actions : ActionSet

-- `ScopeDecision.permits`
unfoldable pub permits : ScopeDecision → Action → Bool
permits d a = d.allowed && d.actions a

-- `ScopeDecision.require`; `OutOfScope` carries the reason of a denial or the refused action.
pub data Required : Type 0 where
  granted : Required
  out_of_scope : Text → Reason → Required
  not_permitted : Text → Action → Option IpClass → Required

unfoldable pub require : ScopeDecision → Action → Required
require d a =
    if not d.allowed
    then out_of_scope d.host d.reason
    else if not (d.actions a)
    then not_permitted d.host a d.ip_class
    else granted

pub record Engine : Type 0 where
  pub parsers : Parsers
  pub cdn_ranges : List Network
  pub cloud_ranges : List Network
  pub allow_private : Bool

-- One entry of `feed["providers"]`: its class, "cdn" or not, and its ranges.
pub record Provider : Type 0 where
  pub is_cdn_provider : Bool
  pub cidrs : List String

-- `ScopeEngine.from_feed`: the ranges of each provider join the bucket of its class.
unfoldable pub add_providers : Engine → List Provider → Engine
add_providers e [] = e
add_providers e (p ∷ ps) =
    let nets = parse_networks e.parsers p.cidrs in
    add_providers
      (if p.is_cdn_provider
        then record e { cdn_ranges = e.cdn_ranges ++ nets }
        else record e { cloud_ranges = e.cloud_ranges ++ nets })
      ps

unfoldable pub from_feed : Parsers → Bool → List Provider → Engine
unfolding add_providers
from_feed p allow_private feed =
    add_providers
      (record { parsers = p; cdn_ranges = []; cloud_ranges = []; allow_private = allow_private })
      feed

-- `classify_ip` behind the parse.
unfoldable pub classify_address : Engine → Address → IpClass
classify_address e a =
    if is_unspecified a
    then unspecified
    else if is_loopback a
    then loopback
    else if is_link_local a
    then link_local
    else if is_multicast a
    then multicast
    else if in_network a cgnat_network
    then cgnat
    else if e.parsers.is_private a
    then private
    else if e.parsers.is_reserved a
    then reserved
    else if in_any a e.cdn_ranges
    then cdn
    else if in_any a e.cloud_ranges
    then cloud_shared
    else public

unfoldable pub classify_ip : Engine → String → IpClass
unfolding classify_address
classify_ip e ip = elim (e.parsers.ip_address ip) [
  | none ↦ reserved
  | some a ↦ classify_address e a
]

-- The loop of `evaluate` ends in a denial, in the ValueError of the second `ip_address` call, or
-- with the list of classes and the flag `all_dedicated`.
pub data Scan : Type 0 where
  denied : Reason → IpClass → Scan
  bad_address : String → Scan
  classes : List IpClass → Bool → Scan

-- What one round decides about an address: to stop, or the class to append.
pub data Round : Type 0 where
  stop : Reason → IpClass → Round
  fault : String → Round
  keep_class : IpClass → Bool → Round

-- How a round's result is joined with what the rest of the loop yields.
abbrev pub join : Round → Scan → Scan
join (stop r c) rest = denied r c
join (fault ip) rest = bad_address ip
join (keep_class c own) (denied r d) = denied r d
join (keep_class c own) (bad_address ip) = bad_address ip
join (keep_class c own) (classes cs all) = classes (c ∷ cs) (own && all)

-- next((c for c in classes if c != DEDICATED), PUBLIC)
unfoldable pub representative : List IpClass → IpClass
representative [] = public
representative (dedicated ∷ cs) = representative cs
representative (c ∷ cs) = c

-- The result of `evaluate`: a decision, or the ValueError that leaves it.
pub data Verdict : Type 0 where
  decision : ScopeDecision → Verdict
  value_error : String → Verdict

abbrev pub deny : Text → Reason → Option IpClass → Verdict
deny h r c =
    decision (record { host = h; allowed = false; reason = r; ip_class = c; actions = no_actions })

abbrev pub allow : Text → Reason → Option IpClass → ActionSet → Verdict
allow h r c acts =
    decision (record { host = h; allowed = true; reason = r; ip_class = c; actions = acts })

module _ (e : Engine) (scope : ProgramScope) where
  -- A class that no override and no lab mode lets through.
  unfoldable pub blocked : IpClass → Bool
  blocked cls =
      hard_deny cls
      && (not (e.allow_private && is_private_class cls)
          && not (scope.scope_override && not (never_overridable cls)))

  abbrev pub denial_reason : String → IpClass → Reason
  denial_reason ip cls = if never_overridable cls then metadata_denied ip else internal_ip ip cls

  unfoldable pub is_dedicated : IpClass → Address → Bool
  is_dedicated cls a =
      scope.scope_override
      || ((e.allow_private && is_private_class cls)
          || ((scope.scan_shared_infra && is_shared cls)
              || (not (is_cdn cls)
                  && in_any a (parse_networks e.parsers scope.authorized_dedicated_cidrs))))

  -- The part of the body that needs the parsed address.
  unfoldable pub judge : String → IpClass → Address → Round
  unfolding is_dedicated
  judge ip cls a =
      if in_any a (parse_networks e.parsers scope.excluded_cidrs)
      then stop (cidr_excluded ip) cls
      else if is_dedicated cls a
      then keep_class dedicated true
      else keep_class cls false

  unfoldable pub round : String → Round
  unfolding classify_ip blocked judge
  round ip =
      if blocked (classify_ip e ip)
      then stop (denial_reason ip (classify_ip e ip)) (classify_ip e ip)
      else elim (e.parsers.ip_address ip) [
        | none ↦ fault ip
        | some a ↦ judge ip (classify_ip e ip) a
      ]

  unfoldable pub scan : List String → Scan
  unfolding round
  scan [] = classes [] true
  scan (ip ∷ ips) = join (round ip) (scan ips)

  -- What follows the loop.
  unfoldable pub conclude : Text → Scan → Verdict
  unfolding representative
  conclude h (denied r c) = deny h r (some c)
  conclude h (bad_address ip) = value_error ip
  conclude h (classes cs true) =
      allow h (if scope.scope_override then override_granted else all_dedicated) (some dedicated)
        full_actions
  conclude h (classes cs false) =
      allow h shared_http_only (some (representative cs)) http_layer_actions

  unfoldable pub on_addresses : Text → List String → Verdict
  unfolding conclude scan
  on_addresses h [] = allow h no_ips none passive_only
  on_addresses h (ip ∷ ips) = conclude h (scan (ip ∷ ips))

  unfoldable pub evaluate : Text → List String → Verdict
  unfolding on_addresses
  evaluate host ips =
      let h = normal host in
      if not (owns_host scope.verified_apexes h) && not scope.scope_override
      then deny h not_under_apex none
      else if on_exclusion_list scope.excluded_hosts h
      then deny h host_excluded none
      else on_addresses h ips
