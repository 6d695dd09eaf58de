-- ===== src/Access/Guards.antt =====
-- core/permissions.py and api/deps.py: what every caller that gets past the guards can do.
use exact_surface.Prelude.{
  String, ◌≡◌, refl, ap, inl, inr, true, false, Option, none, some, List, [], arith, here, sym,
  subst, keep, Bool-cases, Option-cases, contains, ◌==◌, contains-insert, string_eq,
}
use mathlib.Core.Option.{some-injective}
use exact_surface.Access.{
  view, effective_permissions, normalise_permissions, scope_read, allowed_scopes_for,
  normalise_scopes,
}
use exact_surface.Access.Principal.{
  Principal, Backend, Headers, Token, Key, User, Role, is_owner, has, user_of, permissions_of,
  resolve_permissions, or_default, key_scopes, token_principal, key_principal, from_token, from_key,
  resolve_principal, require_router_access,
}
use exact_surface.Access.Narrowing.{
  IsConsistent, effective_permissions-IsConsistent, IsBacked, contains-keep, allowed_scopes_for_iff,
}

normalise_scopes-IsBacked :
    (requested perms : List String) (s : String)
    → contains s (normalise_scopes requested perms) ≡ true
    → IsBacked perms s
unfolding normalise_scopes contains
normalise_scopes-IsBacked requested perms s h =
    let allowed = λ (x : String). contains x (allowed_scopes_for perms) in
    let granted = keep allowed requested in
    elim (Bool-cases (contains view perms)) [
      | inl t ↦ elim (Bool-cases (scope_read == s)) [
        | inl e ↦ (view, here (ap (λ x. (x, view)) (sym ((string_eq.beq_iff scope_read s).0 e))), t)
        | inr g ↦ (allowed_scopes_for_iff perms s).0 (
            ground (
              arith,
              h,
              t,
              g,
              contains-insert scope_read s granted,
              contains-keep allowed s requested,
            ))
      ]
      | inr f ↦
          (allowed_scopes_for_iff perms s).0
            (ground (arith, h, f, contains-keep allowed s requested))
    ]

key_scopes-IsBacked :
    (scopes : Option (List String)) (perms : List String) (s : String)
    → contains s (key_scopes scopes perms) ≡ true
    → IsBacked perms s
unfolding key_scopes
key_scopes-IsBacked none perms s h = (allowed_scopes_for_iff perms s).0 h
key_scopes-IsBacked (some scopes) perms s h =
    normalise_scopes-IsBacked (or_default scopes) perms s h

permissions_of-IsConsistent :
    (b : Backend) (tid : String) (r : Role) (u : Option User)
    → IsConsistent (permissions_of b tid r u)
unfolding permissions_of
permissions_of-IsConsistent b tid r none = elim (Bool-cases (is_owner r)) [
  | inl t ↦ rw t (effective_permissions-IsConsistent true [])
  | inr f ↦ rw f (effective_permissions-IsConsistent false (b.permissions_for_ids tid []))
]
permissions_of-IsConsistent b tid r (some u) = elim (Bool-cases (is_owner u.role)) [
  | inl t ↦ rw t (effective_permissions-IsConsistent true [])
  | inr f ↦ rw f (effective_permissions-IsConsistent false (b.permissions_for_ids tid u.group_ids))
]

-- How a principal came about.
data Resolved (b : Backend) : Principal → Type 0 where
  by_token : (t : Token) → Resolved b (token_principal b t)
  by_key : (k : Key) → k.revoked ≡ false → Resolved b (key_principal b k)

from_token-Resolved :
    (b : Backend) (t : Option Token) (p : Principal) → from_token b t ≡ some p → Resolved b p
unfolding from_token
from_token-Resolved b none p h = cc
from_token-Resolved b (some t) p h = subst (Resolved b) (some-injective _ _ h) (by_token t)

from_key-Resolved :
    (b : Backend) (k : Option Key) (p : Principal) → from_key b k ≡ some p → Resolved b p
unfolding from_key
from_key-Resolved b none p h = cc
from_key-Resolved b (some k) p h = elim (Bool-cases k.revoked) [
  | inl t ↦ cc (rw t at h)
  | inr f ↦ subst (Resolved b) (some-injective _ _ (rw f at h)) (by_key k f)
]

resolve_principal-Resolved :
    (b : Backend) (h : Headers) (p : Principal) → resolve_principal b h ≡ some p → Resolved b p
unfolding resolve_principal
resolve_principal-Resolved b h p q = elim (Option-cases h.bearer) [
  | inr (token, e) ↦ from_token-Resolved b (b.decode_token token) p (rw e at q)
  | inl e ↦ elim (Option-cases h.api_key) [
    | inr (key, e') ↦ from_key-Resolved b (b.key_by_hash key) p (rw (e, e') at q)
    | inl e' ↦ cc (rw (e, e') at q)
  ]
]

-- No permission out of the catalogue, none to manage alone, and no scope without its permission.
abbrev pub IsBounded : Principal → Type 0
IsBounded p =
    IsConsistent p.permissions
    × ((held : List String) (s : String)
        → p.scopes ≡ some held
        → contains s held ≡ true
        → IsBacked p.permissions s)

Resolved-IsBounded : (b : Backend) (p : Principal) → Resolved b p → IsBounded p
unfolding token_principal key_principal resolve_permissions
Resolved-IsBounded b p (by_token t) =
    (permissions_of-IsConsistent b t.tenant_id t.role (user_of b t.tenant_id t.sub), λ held s e. cc)
Resolved-IsBounded b p (by_key k q) = (
  permissions_of-IsConsistent b k.tenant_id k.role (user_of b k.tenant_id k.created_by),
  λ held s e h.
      key_scopes-IsBacked k.scopes _ s
        (subst (λ x. contains s x ≡ true) (sym (some-injective _ _ e)) h),
)

pub resolve_principal-IsBounded :
    (b : Backend) (h : Headers) (p : Principal) → resolve_principal b h ≡ some p → IsBounded p
resolve_principal-IsBounded b h p q = Resolved-IsBounded b p (resolve_principal-Resolved b h p q)

ungrouped-permissions :
    (b : Backend) (p : Principal) (u : User)
    → Resolved b p
    → user_of b p.tenant_id p.user_id ≡ some u
    → is_owner u.role ≡ false
    → b.permissions_for_ids p.tenant_id u.group_ids ≡ []
    → p.permissions ≡ []
unfolding token_principal key_principal resolve_permissions permissions_of effective_permissions
    normalise_permissions
ungrouped-permissions b p u (by_token t) known plain empty =
    rw (known, permissions_of, plain, empty) refl
ungrouped-permissions b p u (by_key k r) known plain empty =
    rw (known, permissions_of, plain, empty) refl

-- A user who is not the owner and whose groups give no permission is refused by every gate that
-- `require_router_access` makes, whatever the method and the permission to write, with a token and
-- with a key alike, also where the token or the key still names an owner.
pub require_router_access-ungrouped :
    (b : Backend) (h : Headers) (p : Principal) (u : User)
    → resolve_principal b h ≡ some p
    → user_of b p.tenant_id p.user_id ≡ some u
    → is_owner u.role ≡ false
    → b.permissions_for_ids p.tenant_id u.group_ids ≡ []
    → (write_permission method : String) → require_router_access write_permission method p ≡ none
unfolding require_router_access has
require_router_access-ungrouped b h p u q known plain empty write_permission method =
    rw
      (ungrouped-permissions b p u (resolve_principal-Resolved b h p q) known plain empty, contains)
      refl

-- A creator who loses permissions never gains a scope by it: the scopes of the same request under
-- fewer permissions are among those under more.
pub normalise_scopes_mono :
    (requested fewer more : List String)
    → ((p : String) → contains p fewer ≡ true → contains p more ≡ true)
    → (s : String) → contains s (normalise_scopes requested fewer) ≡ true
    → contains s (normalise_scopes requested more) ≡ true
unfolding normalise_scopes
normalise_scopes_mono requested fewer more sub s h =
    let low = λ (x : String). contains x (allowed_scopes_for fewer) in
    let high = λ (x : String). contains x (allowed_scopes_for more) in
    let grows : low s ≡ true → high s ≡ true = (λ t.
      let r = (allowed_scopes_for_iff fewer s).0 t in
      (allowed_scopes_for_iff more s).1 (r.0, r.1, sub r.0 r.2)) in
    ground (
      arith,
      h,
      grows,
      sub view,
      contains-keep low s requested,
      contains-keep high s requested,
      contains-insert scope_read s (keep low requested),
      contains-insert scope_read s (keep high requested),
    )
