-- ===== src/Scope/Confirm/Chain.antt =====
-- core/scope.py and pipelines/orchestrate.py: from the ASN data to the address that is scanned.
use exact_surface.Prelude.{
  String, ◌≡◌, refl, true, false, Option, none, some, List, [], ◌∷◌, arith, string_eq, In, here,
  there, All, All-In, All-of_In, In-cons, In-map, In-keep, keep, subst, Option-cases, inl, inr, sym,
  ◌∙◌, ap,
}
use exact_surface.Scope.Address.{Address, Network, Parsers, in_network, subnet_of, parse_networks}
use exact_surface.Scope.Host.{Text}
use exact_surface.Scope.Engine.{Engine, ProgramScope, Action, http_layer_actions, evaluate}
use exact_surface.Scope.Rounds.{Ownership, by_override, by_lab, by_attestation, by_range}
use exact_surface.Scope.Grants.{verdict_permits, evaluate_sound}
use exact_surface.Scope.Confirm.{
  IpScopeEntry, is_asn_confirmed, confirm_ip_scope, confirmed_cidrs, Program, Authorization,
  dedicated_cidrs, build_program_scope, or_empty, requested_cidrs, confirm_authorization,
}
use exact_surface.Scope.Confirm.Ownership.{IsSound, confirm_ip_scope-IsSound}

-- An address of a network lies in every network that holds that one.
pub in_network-subnet :
    (a : Address) (n m : Network)
    → in_network a n ≡ true
    → subnet_of n m ≡ true
    → in_network a m ≡ true
unfolding in_network subnet_of
in_network-subnet a n m h k = ground arith

In-parse_networks :
    (p : Parsers) (cidrs : List String) {n : Network}
    → In n (parse_networks p cidrs)
    → (c : String) × In c cidrs × (p.ip_network c ≡ some n)
unfolding parse_networks
In-parse_networks p [] m = elim m [ ]
In-parse_networks p (c ∷ cs) m = elim (Option-cases (p.ip_network c)) [
  | inl q ↦ let r = In-parse_networks p cs (rw (q, parse_networks) at m) in (r.0, there r.1, r.2)
  | inr (net, q) ↦ elim (In-cons (rw (q, parse_networks) at m)) [
    | inl e ↦ (c, here refl, q ∙ ap some (sym e))
    | inr k ↦ let r = In-parse_networks p cs k in (r.0, there r.1, r.2)
  ]
]

In-confirmed :
    (entries : List IpScopeEntry) {c : String}
    → In c (confirmed_cidrs entries)
    → (x : IpScopeEntry) × In x entries × (is_asn_confirmed x ≡ true) × (c ≡ x.cidr)
unfolding confirmed_cidrs
In-confirmed xs m =
    let r = In-map (λ (x : IpScopeEntry). x.cidr) (keep is_asn_confirmed xs) m in
    let k = In-keep is_asn_confirmed xs r.1 in (r.0, k.0, k.1, r.2)

requested-none :
    (entries : List IpScopeEntry) (x : IpScopeEntry)
    → requested_cidrs entries ≡ []
    → In x entries
    → x.cidr ≡ ""
requested-none [] x q m = elim m [ ]
requested-none (y ∷ ys) x q (here i) =
    ground (arith, ap (λ (z : IpScopeEntry). z.cidr) i, string_eq.beq_iff y.cidr "")
requested-none (y ∷ ys) x q (there k) = requested-none ys x (ground (arith, q)) k

module _ (e : Engine) where
  -- What `ipaddress` documents of networks: the text that a parsed network prints as parses back to
  -- it, and the empty text is none.
  pub record ReadsNetworks : Type 0 where
    pub prints_back :
        (c : String) (n : Network)
        → e.parsers.ip_network c ≡ some n
        → e.parsers.ip_network (e.parsers.str_network n) ≡ some n
    pub no_empty : e.parsers.ip_network "" ≡ none

  -- A confirmed text stands for a network that lies within an announced range.
  confirmed-range :
      (requested ranges : List String) {n : Network}
      → ReadsNetworks
      → In n (parse_networks e.parsers (confirmed_cidrs (confirm_ip_scope e requested ranges)))
      → (r : Network) × In r (parse_networks e.parsers ranges) × (subnet_of n r ≡ true)
  confirmed-range requested ranges {n} back m =
      let (c, inc, pc) = In-parse_networks e.parsers _ m in
      let (x, inx, conf, cx) = In-confirmed _ inc in
      let sound =
        All-In (IsSound e (parse_networks e.parsers ranges)) _
          (confirm_ip_scope-IsSound e requested ranges) inx in
      let (r, inr', sub, via) = (sound.contained (sound.confirmed.0 conf)).1 in
      let same : sound.network ≡ n =
        cc (back.prints_back sound.text sound.network sound.parsed, sound.printed) in
      (r, inr', subst (λ k. subnet_of k r ≡ true) same sub)

  dedicated-range :
      (requested : List String) (auth : Authorization) (ranges : Option (List String)) {n : Network}
      → ReadsNetworks
      → requested_cidrs auth.ip_scope ≡ requested
      → In n
          (parse_networks e.parsers (dedicated_cidrs (some (confirm_authorization e ranges auth))))
      → (r : Network) × In r (parse_networks e.parsers (or_empty ranges)) × (subnet_of n r ≡ true)
  unfolding dedicated_cidrs confirm_authorization parse_networks
  dedicated-range [] auth ranges back q m =
      let (c, inc, pc) =
        In-parse_networks e.parsers _ (rw (q, confirm_authorization, dedicated_cidrs) at m) in
      let (x, inx, conf, cx) = In-confirmed auth.ip_scope inc in
      let blank : c ≡ "" = cx ∙ requested-none auth.ip_scope x q inx in
      cc (sym pc, ap e.parsers.ip_network blank, back.no_empty)
  dedicated-range (c ∷ cs) auth ranges back q m =
      confirmed-range (c ∷ cs) (or_empty ranges) back
        (rw (q, confirm_authorization, dedicated_cidrs) at m)

  -- An address lies in a range that the ASN lookup announced for the apex.
  pub record IsAnnounced (ranges : List String) (ip : String) : Type 0 where
    pub address : Address
    pub parsed : e.parsers.ip_address ip ≡ some address
    pub range : Network
    pub listed : In range (parse_networks e.parsers ranges)
    pub inside : in_network address range ≡ true

  module _ (p : Program) (auth : Authorization) (ranges : Option (List String)) where
    -- The scope that a scan of the program runs under once its ranges were confirmed.
    abbrev pub confirmed_scope : ProgramScope
    confirmed_scope = build_program_scope p (some (confirm_authorization e ranges auth))

    announced :
        (ip : String)
        → ReadsNetworks
        → p.scope_override ≡ false
        → p.scan_shared_infra ≡ false
        → e.allow_private ≡ false
        → Ownership e confirmed_scope ip
        → IsAnnounced (or_empty ranges) ip
    unfolding build_program_scope
    announced ip back o s l (by_override h) = cc
    announced ip back o s l (by_lab h c) = cc
    announced ip back o s l (by_attestation h c) = cc
    announced ip back o s l (by_range a n q c m h) =
        let r = dedicated-range (requested_cidrs auth.ip_scope) auth ranges back refl m in
        record {
          address = a;
          parsed = q;
          range = r.0;
          listed = r.1;
          inside = in_network-subnet a n r.0 h r.2;
        }

    -- With the override, the attestation and lab mode off, an action beyond the HTTP layer is
    -- permitted on a host only if each of its addresses lies in a range that the ASN lookup
    -- announced for the apex, whatever the operator has requested; with no answer from the lookup
    -- none is permitted.
    pub aggressive-IsAnnounced :
        (host : Text) (ip : String) (ips : List String) (a : Action)
        → ReadsNetworks
        → p.scope_override ≡ false
        → p.scan_shared_infra ≡ false
        → e.allow_private ≡ false
        → http_layer_actions a ≡ false
        → verdict_permits (evaluate e confirmed_scope host (ip ∷ ips)) a ≡ true
        → All (IsAnnounced (or_empty ranges)) (ip ∷ ips)
    aggressive-IsAnnounced host ip ips a back o s l act h =
        elim (evaluate_sound e confirmed_scope host (ip ∷ ips) a h).1.1 [
          | inl w ↦ cc
          | inr own ↦ All-of_In _ (ip ∷ ips) (λ x m.
              announced x back o s l (All-In (Ownership e confirmed_scope) (ip ∷ ips) own m))
        ]
