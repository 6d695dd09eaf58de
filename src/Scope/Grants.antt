-- ===== src/Scope/Grants.antt =====
-- core/scope.py: what `evaluate` grants, and on which grounds.
use exact_surface.Prelude.{
  String, ◌≡◌, refl, Bool, true, false, ◌&&◌, List, [], ◌∷◌, arith, In, here, All, All-In,
  All-of_In, Bool-cases, inl, inr, ◌⊎◌,
}
use exact_surface.Scope.Host.{Text, normal, owns_host, on_exclusion_list}
use exact_surface.Scope.Engine.{
  IpClass, cdn, classify_ip, Action, passive_recon, passive_only, http_layer_actions, ProgramScope,
  Engine, Scan, denied, bad_address, classes, scan, Verdict, decision, value_error, conclude,
  on_addresses, evaluate,
}
use exact_surface.Scope.Rounds.{
  Reaches, Ownership, by_override, by_lab, by_attestation, by_range, scan-classes, classes-scan,
}

-- What a verdict permits; the exception permits nothing.
abbrev pub verdict_permits : Verdict → Action → Bool
verdict_permits (decision d) a = d.allowed && d.actions a
verdict_permits (value_error ip) a = false

module _ (e : Engine) (scope : ProgramScope) where
  -- A host that the engine takes: owned or under the override, and not excluded.
  pub record Admits (host : Text) : Type 0 where
    pub authority :
        (owns_host scope.verified_apexes (normal host) ≡ true) ⊎ (scope.scope_override ≡ true)
    pub not_listed : on_exclusion_list scope.excluded_hosts (normal host) ≡ false

  -- The grounds for an action on a host's addresses: with none, only passive recon; with some,
  -- each of them can be reached, and the action is of the HTTP layer or each of them is owned.
  abbrev pub Grounds : List String → Action → Type 0
  Grounds [] a = a ≡ passive_recon
  Grounds (ip ∷ ips) a =
      All (Reaches e scope) (ip ∷ ips)
      × ((http_layer_actions a ≡ true) ⊎ All (Ownership e scope) (ip ∷ ips))

  conclude_sound :
      (h : Text) (ips : List String) (a : Action) (s : Scan)
      → scan e scope ips ≡ s
      → verdict_permits (conclude e scope h s) a ≡ true
      → All (Reaches e scope) ips × ((http_layer_actions a ≡ true) ⊎ All (Ownership e scope) ips)
  unfolding conclude
  conclude_sound h ips a (denied r c) q p = cc
  conclude_sound h ips a (bad_address ip) q p = cc
  conclude_sound h ips a (classes cs true) q p =
      let r = scan-classes e scope ips cs true q in (r.0, inr (r.1 refl))
  conclude_sound h ips a (classes cs false) q p = ((scan-classes e scope ips cs false q).0, inl p)

  admits :
      (host : Text) (ips : List String) (a : Action)
      → verdict_permits (evaluate e scope host ips) a ≡ true
      → Admits host × (verdict_permits (on_addresses e scope (normal host) ips) a ≡ true)
  unfolding evaluate
  admits host ips a h =
      (record { authority = ground arith; not_listed = ground arith }, ground arith)

  admitted :
      (host : Text) (ips : List String)
      → Admits host
      → evaluate e scope host ips ≡ on_addresses e scope (normal host) ips
  unfolding evaluate
  admitted host ips adm = ground (arith, adm.authority, adm.not_listed)

  only_passive : (a : Action) → passive_only a ≡ true → a ≡ passive_recon
  only_passive a h = ground arith

  -- Whatever `evaluate` permits has its grounds: the host is under a verified apex or the override
  -- is on, the host is not excluded, and the addresses bear the action.
  pub evaluate_sound :
      (host : Text) (ips : List String) (a : Action)
      → verdict_permits (evaluate e scope host ips) a ≡ true
      → Admits host × Grounds ips a
  unfolding on_addresses
  evaluate_sound host [] a h = let (adm, p) = admits host [] a h in (adm, only_passive a p)
  evaluate_sound host (ip ∷ ips) a h =
      let (adm, p) = admits host (ip ∷ ips) a h in
      (adm, conclude_sound (normal host) (ip ∷ ips) a _ refl p)

  pick :
      (h : Text) (ips : List String) (cs : List IpClass) (all : Bool) (a : Action)
      → (All (Ownership e scope) ips → all ≡ true)
      → (http_layer_actions a ≡ true) ⊎ All (Ownership e scope) ips
      → verdict_permits (conclude e scope h (classes cs all)) a ≡ true
  unfolding conclude
  pick h ips cs true a owns g = refl
  pick h ips cs false a owns (inl l) = l
  pick h ips cs false a owns (inr o) = cc (owns o)

  conclude_complete :
      (h : Text) (ips : List String) (a : Action)
      → All (Reaches e scope) ips
      → (http_layer_actions a ≡ true) ⊎ All (Ownership e scope) ips
      → verdict_permits (conclude e scope h (scan e scope ips)) a ≡ true
  conclude_complete h ips a r g =
      let (cs, all, q, owns) = classes-scan e scope ips r in rw q (pick h ips cs all a owns g)

  -- Nothing that has its grounds is withheld.
  pub evaluate_complete :
      (host : Text) (ips : List String) (a : Action)
      → Admits host
      → Grounds ips a
      → verdict_permits (evaluate e scope host ips) a ≡ true
  unfolding on_addresses
  evaluate_complete host [] a adm g = rw (admitted host [] adm) (rw g refl)
  evaluate_complete host (ip ∷ ips) a adm g =
      rw (admitted host (ip ∷ ips) adm) (conclude_complete (normal host) (ip ∷ ips) a g.0 g.1)

  -- The permissions depend only on which addresses there are, not on their order or number, and
  -- more addresses never permit more: what a list permits, every non-empty part of it permits.
  pub evaluate-antitone :
      (host : Text) (xs : List String) (y : String) (ys : List String) (a : Action)
      → ((ip : String) → In ip (y ∷ ys) → In ip xs)
      → verdict_permits (evaluate e scope host xs) a ≡ true
      → verdict_permits (evaluate e scope host (y ∷ ys)) a ≡ true
  evaluate-antitone host [] y ys a sub h = elim (sub y (here refl)) [ ]
  evaluate-antitone host (x ∷ xs) y ys a sub h =
      let (adm, g) = evaluate_sound host (x ∷ xs) a h in
      let part = λ (P : String → Type 0) (all : All P (x ∷ xs)).
        All-of_In P (y ∷ ys) (λ ip m. All-In P (x ∷ xs) all (sub ip m)) in
      evaluate_complete host (y ∷ ys) a adm (
        part (Reaches e scope) g.0,
        elim g.1 [ inl l ↦ inl l | inr o ↦ inr (part (Ownership e scope) o) ],
      )

  owned_cdn :
      (ip : String) → Ownership e scope ip → classify_ip e ip ≡ cdn → scope.scope_override ≡ true
  owned_cdn ip (by_override o) c = o
  owned_cdn ip (by_lab l q) c = cc
  owned_cdn ip (by_attestation s (inl q)) c = cc
  owned_cdn ip (by_attestation s (inr q)) c = cc
  owned_cdn ip (by_range b n p q m h) c = absurd (q c)

  -- Without the override one address on a CDN edge withholds every action beyond the HTTP layer,
  -- even where an authorized range, lab mode or the attestation covers it and all the others.
  pub evaluate-cdn :
      (host : Text) (ips : List String) (ip : String) (a : Action)
      → In ip ips
      → classify_ip e ip ≡ cdn
      → scope.scope_override ≡ false
      → http_layer_actions a ≡ false
      → verdict_permits (evaluate e scope host ips) a ≡ false
  evaluate-cdn host [] ip a m c o l = elim m [ ]
  evaluate-cdn host (x ∷ xs) ip a m c o l =
      elim (Bool-cases (verdict_permits (evaluate e scope host (x ∷ xs)) a)) [
        | inr f ↦ f
        | inl t ↦ elim (evaluate_sound host (x ∷ xs) a t).1.1 [
          | inl w ↦ cc
          | inr own ↦ cc (owned_cdn ip (All-In (Ownership e scope) (x ∷ xs) own m) c)
        ]
      ]
