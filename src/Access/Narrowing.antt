-- ===== src/Access/Narrowing.antt =====
-- core/permissions.py and api/deps.py: nobody gets more than their groups give, and no key more than
-- its creator has.
use exact_surface.Prelude.{
  String, ◌≡◌, refl, sym, ap, ◌↔◌, inl, inr, Bool, true, false, ◌&&◌, List, [], ◌∷◌, arith, In,
  here, there, In-cons, In-keep, keep-In, keep, any, Bool-cases, Dict, keys, contains, ◌==◌,
  contains-insert, contains→In, In→contains, string_eq,
}
use exact_surface.Access.{
  view, assignable_permissions, manage_permissions, normalise_permissions, effective_permissions,
  scope_requires, allowed_scopes_for,
}

-- Only permissions that exist, and none to manage without the one to view.
pub record IsConsistent (perms : List String) : Type 0 where
  pub known : (p : String) → contains p perms ≡ true → contains p assignable_permissions ≡ true
  pub sees :
      (p : String)
      → contains p perms ≡ true
      → contains p manage_permissions ≡ true
      → contains view perms ≡ true

pub contains-keep :
    (f : String → Bool) (k : String) (s : List String)
    → contains k (keep f s) ≡ (contains k s && f k)
unfolding contains
contains-keep f k [] = refl
contains-keep f k (x ∷ xs) = elim (Bool-cases (x == k)) [
  | inl t ↦ let e = ap f ((string_eq.beq_iff x k).0 t) in ground (arith, contains-keep f k xs, e, t)
  | inr g ↦ ground (arith, contains-keep f k xs, g)
]

any-contains :
    (f : String → Bool) (k : String) (s : List String)
    → contains k s ≡ true
    → f k ≡ true
    → any f s ≡ true
unfolding contains
any-contains f k [] h t = cc
any-contains f k (x ∷ xs) h t = elim (Bool-cases (x == k)) [
  | inl e ↦ let q = ap f ((string_eq.beq_iff x k).0 e) in ground (arith, q, t)
  | inr g ↦ ground (arith, any-contains f k xs (ground arith) t)
]

normalise_permissions-IsConsistent :
    (perms : List String) → IsConsistent (normalise_permissions perms)
unfolding normalise_permissions contains
normalise_permissions-IsConsistent perms =
    let known_only = λ (p : String). contains p assignable_permissions in
    let manages = λ (p : String). contains p manage_permissions in
    let valid = keep known_only perms in
    elim (Bool-cases (any manages valid)) [
      | inl t ↦ rw t (record {
        known = λ p h. elim (Bool-cases (view == p)) [
          | inl e ↦ sym (ap known_only ((string_eq.beq_iff view p).0 e))
          | inr g ↦
              ground (arith, h, g, contains-insert view p valid, contains-keep known_only p perms)
        ];
        sees =
            λ p h m. ground (arith, contains-insert view view valid, string_eq.beq_iff view view);
      })
      | inr f ↦ rw f (record {
        known = λ p h. ground (arith, h, contains-keep known_only p perms);
        sees = λ p h m. cc (any-contains manages p valid h m, f);
      })
    ]

pub effective_permissions-IsConsistent :
    (o : Bool) (perms : List String) → IsConsistent (effective_permissions o perms)
unfolding effective_permissions contains
effective_permissions-IsConsistent true perms = record { known = λ p h. h; sees = λ p h m. refl }
effective_permissions-IsConsistent false perms = normalise_permissions-IsConsistent perms

-- The permission that the scope needs is held.
abbrev pub IsBacked : List String → String → Type 0
IsBacked perms s = (p : String) × In (s, p) scope_requires × (contains p perms ≡ true)

In-keys : {k : String} (d : Dict String String) → In k (keys d) → (v : String) × In (k, v) d
In-keys [] m = elim m [ ]
In-keys ((j, v) ∷ d) m = elim (In-cons m) [
  | inl e ↦ (v, here (ap (λ x. (x, v)) e))
  | inr k ↦ let r = In-keys d k in (r.0, there r.1)
]

keys-In : {k v : String} (d : Dict String String) → In (k, v) d → In k (keys d)
keys-In [] m = elim m [ ]
keys-In ((j, w) ∷ d) m = elim (In-cons m) [
  | inl e ↦ here (ap (λ x. x.0) e)
  | inr k ↦ there (keys-In d k)
]

pub allowed_scopes_for_iff :
    (perms : List String) (s : String)
    → (contains s (allowed_scopes_for perms) ≡ true) ↔ IsBacked perms s
unfolding allowed_scopes_for
allowed_scopes_for_iff perms s =
    let f = λ (entry : String × String). contains entry.1 perms in
    (
      λ h.
          let r = In-keys (keep f scope_requires) (contains→In s _ h) in
          let k = In-keep f scope_requires r.1 in (r.0, k.0, k.1),
      λ h. In→contains s _ (keys-In _ (keep-In f scope_requires h.1 h.2)),
    )
