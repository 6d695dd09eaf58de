-- ===== src/Scope/Confirm/Ownership.antt =====
-- core/scope.py: what an entry of `confirm_ip_scope` guarantees.
use exact_surface.Prelude.{
  some, String, ◌≡◌, ◌≢◌, refl, ◌↔◌, true, false, List, [], ◌∷◌, arith, In, All, All-append, find,
  find-In, Bool-cases, Option-cases, inl, inr,
}
use exact_surface.Scope.Address.{Address, Network, subnet_of, parse_networks}
use exact_surface.Scope.Engine.{
  IpClass, dedicated, cdn, hard_deny, is_cdn, port_scan, Engine, classify_address, classify_ip,
}
use exact_surface.Scope.Confirm.{
  asnmap, IpScopeEntry, is_asn_confirmed, class_of, entry_for, confirm_network, confirm_all,
  confirm_ip_scope,
}

-- Classification never answers `dedicated`.
classify-dedicated : (e : Engine) (a : Address) → classify_address e a ≢ dedicated
unfolding classify_address
classify-dedicated e a h = ground arith

classify_ip-dedicated : (e : Engine) (ip : String) → classify_ip e ip ≢ dedicated
unfolding classify_ip
classify_ip-dedicated e ip h = elim (Option-cases (e.parsers.ip_address ip)) [
  | inl n ↦ ground arith
  | inr (a, p) ↦ classify-dedicated e a (rw (p, classify_ip) at h)
]

not_cdn : (c : IpClass) → is_cdn c ≡ false → c ≢ cdn
not_cdn c h = ground arith

module _ (e : Engine) (nets : List Network) where
  -- What holds of one entry: its network's class was not denied; it is confirmed exactly if it is
  -- dedicated, and exactly then it has an action beyond the HTTP layer; and then its network lies
  -- within one of the announced ranges and its class is not a CDN's.
  pub record IsSound (x : IpScopeEntry) : Type 0 where
    pub network : Network
    pub text : String
    pub parsed : e.parsers.ip_network text ≡ some network
    pub printed : x.cidr ≡ e.parsers.str_network network
    pub not_denied : hard_deny (class_of e network) ≡ false
    pub confirmed : (is_asn_confirmed x ≡ true) ↔ (x.ip_class ≡ dedicated)
    pub full : (x.action_set port_scan ≡ true) ↔ (x.ip_class ≡ dedicated)
    pub contained :
        x.ip_class ≡ dedicated
        → (class_of e network ≢ cdn)
          × ((n : Network) × In n nets
              × (subnet_of network n ≡ true)
              × (x.confirmed_via ≡ asnmap n))

  entry-IsSound :
      (c : String) (net : Network)
      → e.parsers.ip_network c ≡ some net
      → hard_deny (class_of e net) ≡ false
      → IsSound (entry_for e.parsers (class_of e net) net (find (subnet_of net) nets))
  unfolding entry_for is_asn_confirmed
  entry-IsSound c net q h = elim (Bool-cases (is_cdn (class_of e net))) [
    | inl t ↦ rw t (record {
      network = net;
      text = c;
      parsed = q;
      printed = refl;
      not_denied = h;
      confirmed = ground (arith, cd);
      full = ground (arith, cd);
      contained = λ d. absurd (cd d);
    })
    | inr f ↦ elim (Option-cases (find (subnet_of net) nets)) [
      | inl n ↦
          rw (f, n)
            (record {
              network = net;
              text = c;
              parsed = q;
              printed = refl;
              not_denied = h;
              confirmed = ground (arith, cd);
              full = ground (arith, cd);
              contained = λ d. absurd (cd d);
            })
      | inr (n, p) ↦
          rw (f, p)
            (record {
              network = net;
              text = c;
              parsed = q;
              printed = refl;
              not_denied = h;
              confirmed = (λ _. refl, λ _. refl);
              full = (λ _. refl, λ _. refl);
              contained = λ _. (
                not_cdn (class_of e net) f,
                (n, (find-In _ nets p).0, (find-In _ nets p).1, refl),
              );
            })
    ]
  ]
    where
      cd : class_of e net ≢ dedicated
      cd = classify_ip-dedicated e _

  network-IsSound :
      (c : String) (net : Network)
      → e.parsers.ip_network c ≡ some net
      → All IsSound (confirm_network e nets net)
  unfolding confirm_network
  network-IsSound c net q = elim (Bool-cases (hard_deny (class_of e net))) [
    | inl t ↦ rw t tt
    | inr f ↦ rw f (entry-IsSound c net q f, tt)
  ]

  confirm_all-IsSound : (cidrs : List String) → All IsSound (confirm_all e nets cidrs)
  unfolding confirm_all
  confirm_all-IsSound [] = tt
  confirm_all-IsSound (c ∷ cs) = elim (Option-cases (e.parsers.ip_network c)) [
    | inl n ↦ rw (n, confirm_all, All) (confirm_all-IsSound cs)
    | inr (net, p) ↦
        rw (p, confirm_all, All)
          (All-append IsSound (confirm_network e nets net) _ (network-IsSound c net p)
            (confirm_all-IsSound cs))
  ]

-- No request is recorded for a network whose class is denied, and a request is recorded as
-- dedicated, with the full action set and the confirmation marker, only if its network lies within
-- a range announced for the apex and its class is not a CDN's.
pub confirm_ip_scope-IsSound :
    (e : Engine) (requested ranges : List String)
    → All (IsSound e (parse_networks e.parsers ranges)) (confirm_ip_scope e requested ranges)
unfolding confirm_ip_scope
confirm_ip_scope-IsSound e requested ranges =
    confirm_all-IsSound e (parse_networks e.parsers ranges) requested
