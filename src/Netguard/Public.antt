-- ===== src/Netguard/Public.antt =====
-- core/netguard.py and modules/safe_http.py: no fetch reaches an address that the scope engine denies.
use exact_surface.Prelude.{
  String, ◌≡◌, refl, subst, Bool, true, false, not, List, [], ◌∷◌, keep, arith, All, All-of_In,
  In-keep, inl, inr, Bool-cases, Option-cases,
}
use exact_surface.Scope.Address.{
  Address, cgnat_network, in_network, in_any, is_unspecified, is_loopback, is_link_local,
  is_multicast,
}
use exact_surface.Scope.Engine.{Engine, hard_deny, classify_address, classify_ip}
use exact_surface.Netguard.{
  Guarded, passes, forbidden_target, is_empty, is_forbidden_address, is_forbidden_target_ip,
  is_ip_literal, assert_url_allowed, some_host, resolve, guarded_post,
}

passes-injective : {A : Type 0} (a b : A) → passes a ≡ passes b → a ≡ b
passes-injective a b h = cc

module _ (e : Engine) (is_global : Address → Bool)
    (cgnat_private : (a : Address) → in_network a cgnat_network ≡ true → is_global a ≡ false) where
  allowed_address :
      (a : Address)
      → is_forbidden_address e.parsers is_global a ≡ false
      → hard_deny (classify_address e a) ≡ false
  unfolding is_forbidden_address classify_address
  allowed_address a h =
      let open_flags : (is_unspecified a ≡ false)
          × (is_loopback a ≡ false)
          × (is_link_local a ≡ false)
          × (is_multicast a ≡ false)
          × (e.parsers.is_private a ≡ false)
          × (e.parsers.is_reserved a ≡ false)
          × (is_global a ≡ true) =
        ground (arith, h) in
      let shared : in_network a cgnat_network ≡ false =
        elim (Bool-cases (in_network a cgnat_network)) [
          | inl t ↦ absurd (ground (arith, open_flags, cgnat_private a t))
          | inr f ↦ f
        ] in
      let (unspecified, loopback, link, multi, priv, res, glob) = open_flags in
      elim (Bool-cases (in_any a e.cdn_ranges)) [
        | inl c ↦
            rw (unspecified, loopback, link, multi, shared, priv, res, c, classify_address) refl
        | inr n ↦ elim (Bool-cases (in_any a e.cloud_ranges)) [
          | inl c ↦
              rw (unspecified, loopback, link, multi, shared, priv, res, n, c, classify_address)
                refl
          | inr m ↦
              rw (unspecified, loopback, link, multi, shared, priv, res, n, m, classify_address)
                refl
        ]
      ]

  allowed_ip :
      (ip : String)
      → is_forbidden_target_ip e.parsers is_global ip ≡ false
      → hard_deny (classify_ip e ip) ≡ false
  unfolding is_forbidden_target_ip classify_ip
  allowed_ip ip h = elim (Option-cases (e.parsers.ip_address ip)) [
    | inl n ↦ let z = rw (n, is_forbidden_target_ip) at h in cc
    | inr (a, q) ↦ rw (q, classify_ip) (allowed_address a (rw (q, is_forbidden_target_ip) at h))
  ]

  -- A host that is passed on is no forbidden literal.
  assert_url_allowed-literal :
      (host : String)
      → assert_url_allowed e.parsers is_global host ≡ passes tt
      → is_empty host ≡ false
      → is_ip_literal e.parsers is_global host ≡ true
      → is_forbidden_target_ip e.parsers is_global host ≡ false
  unfolding assert_url_allowed
  assert_url_allowed-literal host h full literal =
      elim (Bool-cases (is_forbidden_target_ip e.parsers is_global host)) [
        | inl t ↦ let z = rw (full, literal, t, assert_url_allowed) at h in cc
        | inr f ↦ f
      ]

  resolve-All :
      (host : String) (hosts found : List String)
      → resolve e.parsers is_global host hosts ≡ passes found
      → All (λ ip. hard_deny (classify_ip e ip) ≡ false) found
  unfolding resolve
  resolve-All host hosts found h =
      go (keep (λ x. not (is_forbidden_target_ip e.parsers is_global x)) hosts) h (
        All-of_In _ _ (λ ip m. allowed_ip ip (
          ground (
            arith,
            (In-keep (λ x. not (is_forbidden_target_ip e.parsers is_global x)) hosts m).1,
          ))))
    where
      go :
          (safe : List String)
          → some_host e.parsers is_global host safe ≡ passes found
          → All (λ ip. hard_deny (classify_ip e ip) ≡ false) safe
          → All (λ ip. hard_deny (classify_ip e ip) ≡ false) found
      go [] q k = cc
      go (x ∷ xs) q k =
          subst (All (λ ip. hard_deny (classify_ip e ip) ≡ false)) (passes-injective _ _ q) k

  -- Whatever the resolver answers, a post that is not refused connects only to addresses whose class the
  -- scope engine does not deny outright, where the flag is_global is false for shared address space
  -- and what passes by the resolver is an address by the test of the guard.
  pub guarded_post-All :
      (bypasses : String → Bool) (base : String → List String) (host : String) (found : List String)
      → (bypasses host ≡ true
          → (is_empty host ≡ false) × (is_ip_literal e.parsers is_global host ≡ true))
      → guarded_post e.parsers is_global bypasses base host ≡ passes found
      → All (λ ip. hard_deny (classify_ip e ip) ≡ false) found
  unfolding guarded_post
  guarded_post-All bypasses base host found literal h =
      go (assert_url_allowed e.parsers is_global host) refl
    where
      go :
          (r : Guarded (Unit {0}))
          → assert_url_allowed e.parsers is_global host ≡ r
          → All (λ ip. hard_deny (classify_ip e ip) ≡ false) found
      go (forbidden_target x) q = let z = rw (q, guarded_post) at h in cc
      go (passes u) q = elim (Bool-cases (bypasses host)) [
        | inr f ↦ resolve-All host (base host) found (rw (q, f, guarded_post) at h)
        | inl t ↦
            let k = literal t in
            subst (All (λ ip. hard_deny (classify_ip e ip) ≡ false))
              (passes-injective _ _ (rw (q, t, guarded_post) at h))
              (allowed_ip host (assert_url_allowed-literal host q k.0 k.1), tt)
      ]
