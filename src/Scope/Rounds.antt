-- ===== src/Scope/Rounds.antt =====
-- core/scope.py: what the loop of `evaluate` has established of the addresses when it ends.
use exact_surface.Prelude.{
  String, ◌≡◌, ◌≢◌, refl, Bool, true, false, not, ◌&&◌, ◌||◌, some, List, [], ◌∷◌, arith, In, here,
  there, All, Bool-cases, Option-cases, inl, inr, ap, sym, ◌⊎◌, ◌∙◌,
}
use exact_surface.Scope.Address.{Address, Network, in_any, in_network, parse_networks}
use exact_surface.Scope.Engine.{
  IpClass, dedicated, cdn, cloud_shared, public, private, is_private_class, is_shared, is_cdn,
  ProgramScope, Engine, classify_ip, Scan, denied, bad_address, classes, Round, stop, fault,
  keep_class, blocked, is_dedicated, judge, round, join, scan,
}

any-In :
    (a : Address) (nets : List Network)
    → in_any a nets ≡ true
    → (n : Network) × In n nets × (in_network a n ≡ true)
any-In a [] h = cc
any-In a (n ∷ nets) h = elim (Bool-cases (in_network a n)) [
  | inl t ↦ (n, here refl, t)
  | inr f ↦ let r = any-In a nets (ground arith) in (r.0, there r.1, r.2)
]

In-any :
    (a : Address) (nets : List Network) {n : Network}
    → In n nets
    → in_network a n ≡ true
    → in_any a nets ≡ true
In-any a [] m h = elim m [ ]
In-any a (x ∷ nets) (here p) h = ground (arith, ap (in_network a) p)
In-any a (x ∷ nets) (there m) h = ground (arith, In-any a nets m h)

shared_class : (c : IpClass) → is_shared c ≡ true → (c ≡ cloud_shared) ⊎ (c ≡ public)
shared_class c h = ground arith

private_class : (c : IpClass) → is_private_class c ≡ true → c ≡ private
private_class c h = ground arith

not_cdn : (c : IpClass) → not (is_cdn c) ≡ true → c ≢ cdn
not_cdn c h = ground arith

cdn_false : (c : IpClass) → c ≢ cdn → is_cdn c ≡ false
cdn_false c h = ground arith

or_cases : (a b : Bool) → (a || b) ≡ true → (a ≡ true) ⊎ (b ≡ true)
or_cases a b h = ground arith

and_parts : (a b : Bool) → (a && b) ≡ true → (a ≡ true) × (b ≡ true)
and_parts a b h = ground arith

module _ (e : Engine) (scope : ProgramScope) where
  -- The address parses, its class is not barred and no excluded range holds it.
  pub record Reaches (ip : String) : Type 0 where
    pub address : Address
    pub parsed : e.parsers.ip_address ip ≡ some address
    pub open_class : blocked e scope (classify_ip e ip) ≡ false
    pub not_excluded : in_any address (parse_networks e.parsers scope.excluded_cidrs) ≡ false

  -- The four grounds on which an address counts as the operator's own.
  pub data Ownership (ip : String) : Type 0 where
    by_override : scope.scope_override ≡ true → Ownership ip
    by_lab : e.allow_private ≡ true → classify_ip e ip ≡ private → Ownership ip
    by_attestation :
        scope.scan_shared_infra ≡ true
        → (classify_ip e ip ≡ cloud_shared) ⊎ (classify_ip e ip ≡ public)
        → Ownership ip
    by_range :
        (a : Address) (n : Network)
        → e.parsers.ip_address ip ≡ some a
        → classify_ip e ip ≢ cdn
        → In n (parse_networks e.parsers scope.authorized_dedicated_cidrs)
        → in_network a n ≡ true
        → Ownership ip

  grounds :
      (ip : String) (a : Address)
      → e.parsers.ip_address ip ≡ some a
      → is_dedicated e scope (classify_ip e ip) a ≡ true
      → Ownership ip
  unfolding is_dedicated
  grounds ip a p h = elim (or_cases _ _ h) [
    | inl o ↦ by_override o
    | inr h1 ↦ elim (or_cases _ _ h1) [
      | inl l ↦ let q = and_parts _ _ l in by_lab q.0 (private_class _ q.1)
      | inr h2 ↦ elim (or_cases _ _ h2) [
        | inl s ↦ let q = and_parts _ _ s in by_attestation q.0 (shared_class _ q.1)
        | inr d ↦
            let q = and_parts _ _ d in
            let r = any-In a _ q.1 in by_range a r.0 p (not_cdn _ q.0) r.1 r.2
      ]
    ]
  ]

  owned :
      (ip : String) (r : Reaches ip)
      → Ownership ip
      → is_dedicated e scope (classify_ip e ip) r.address ≡ true
  unfolding is_dedicated
  owned ip r (by_override o) = rw o
  owned ip r (by_lab l c) = ground arith
  owned ip r (by_attestation s (inl c)) = ground arith
  owned ip r (by_attestation s (inr c)) = ground arith
  owned ip r (by_range a n p c m h) =
      let same : a ≡ r.address = cc (r.parsed) in
      let hit = In-any r.address _ m (ap (λ x. in_network x n) (sym same) ∙ h) in
      ground (arith, hit, cdn_false (classify_ip e ip) c)

  -- What a round that goes on has established.
  round-keep :
      (ip : String) (c : IpClass) (own : Bool)
      → round e scope ip ≡ keep_class c own
      → (r : Reaches ip) × (is_dedicated e scope (classify_ip e ip) r.address ≡ own)
  unfolding round judge
  round-keep ip c own h = elim (Option-cases (e.parsers.ip_address ip)) [
    | inl n ↦ ground arith
    | inr (a, p) ↦ (
      record { address = a; parsed = p; open_class = ground arith; not_excluded = ground arith },
      ground arith,
    )
  ]

  keep-round :
      (ip : String) (r : Reaches ip)
      → (c : IpClass) × (round e scope ip
          ≡ keep_class c (is_dedicated e scope (classify_ip e ip) r.address))
  unfolding round judge
  keep-round ip r = elim (Bool-cases (is_dedicated e scope (classify_ip e ip) r.address)) [
    | inl t ↦ (dedicated, ground (arith, r.parsed, r.open_class, r.not_excluded))
    | inr f ↦ (classify_ip e ip, ground (arith, r.parsed, r.open_class, r.not_excluded))
  ]

  -- The loop ends with a list of classes exactly if every address can be reached, and its flag says
  -- whether all of them are owned.
  join-classes :
      (r : Round) (s : Scan) (cs : List IpClass) (all : Bool)
      → join r s ≡ classes cs all
      → (c : IpClass) × (own : Bool) × (ds : List IpClass) × (rest : Bool) × (r ≡ keep_class c own)
        × (s ≡ classes ds rest)
        × (all ≡ (own && rest))
  join-classes (stop x c) s cs all h = cc
  join-classes (fault ip) s cs all h = cc
  join-classes (keep_class c own) (denied x d) cs all h = cc
  join-classes (keep_class c own) (bad_address ip) cs all h = cc
  join-classes (keep_class c own) (classes ds rest) cs all h =
      (c, own, ds, rest, refl, refl, ground arith)

  pub scan-classes :
      (ips : List String) (cs : List IpClass) (all : Bool)
      → scan e scope ips ≡ classes cs all
      → All Reaches ips × (all ≡ true → All Ownership ips)
  unfolding scan
  scan-classes [] cs all h = (tt, λ _. tt)
  scan-classes (ip ∷ ips) cs all h =
      let (c, own, ds, rest, hr, hs, ha) =
        join-classes (round e scope ip) (scan e scope ips) cs all h in
      let (reach, ded) = round-keep ip c own hr in
      let (more, owns) = scan-classes ips ds rest hs in
      (
        (reach, more),
        λ t.
            let (o, t') = and_parts own rest (sym ha ∙ t) in
            (grounds ip reach.address reach.parsed (ded ∙ o), owns t'),
      )

  pub classes-scan :
      (ips : List String)
      → All Reaches ips
      → (cs : List IpClass) × (all : Bool) × (scan e scope ips ≡ classes cs all)
        × (All Ownership ips → all ≡ true)
  unfolding scan
  classes-scan [] h = ([], true, refl, λ _. refl)
  classes-scan (ip ∷ ips) h =
      let (cs, all, hs, owns) = classes-scan ips h.1 in
      let (c, hr) = keep-round ip h.0 in
      (
        c ∷ cs,
        is_dedicated e scope (classify_ip e ip) h.0.address && all,
        rw (hr, hs),
        λ o. rw (owned ip h.0 o.0, owns o.1),
      )
