-- ===== src/Access/Principal.antt =====
-- api/deps.py: who calls, resolved anew on every request, and the guards of the routes. The decoded
-- token and the answers of the repositories are the fields of `Backend`; a result of `none` is the
-- HTTP error. Left out are `touch`, which records when a key was last used, and the raise on a
-- stored role that is none of the three.
use exact_surface.Prelude.{
  String, Bool, true, false, not, ◌&&◌, Option, none, some, List, [], ◌∷◌, if◌then◌else◌, contains,
  string_eq,
}
use exact_surface.Access.{
  view, effective_permissions, default_key_scopes, allowed_scopes_for, normalise_scopes,
}

pub data Role : Type 0 where
  owner admin member : Role

pub data Method : Type 0 where
  jwt apikey : Method

pub record Principal : Type 0 where
  pub tenant_id : String
  pub user_id : Option String
  pub role : Role
  pub method : Method
  pub permissions : List String
  pub scopes : Option (List String)

-- What a valid token carries.
pub record Token : Type 0 where
  pub tenant_id : String
  pub sub : Option String
  pub role : Role

-- A stored key; `scopes` is missing from a key that is older than scopes.
pub record Key : Type 0 where
  pub tenant_id : String
  pub created_by : Option String
  pub role : Role
  pub revoked : Bool
  pub scopes : Option (List String)

pub record User : Type 0 where
  pub role : Role
  pub group_ids : List String

pub record Backend : Type 0 where
  pub decode_token : String → Option Token
  pub key_by_hash : String → Option Key
  pub user : String → String → Option User
  pub permissions_for_ids : String → List String → List String

-- The token behind "Bearer ", and the value of the header X-API-Key, each where it is not empty.
pub record Headers : Type 0 where
  pub bearer : Option String
  pub api_key : Option String

abbrev pub is_owner : Role → Bool
is_owner owner = true
is_owner admin = false
is_owner member = false

-- `has`
unfoldable pub has : String → Principal → Bool
unfolding contains
has perm p = contains perm p.permissions

-- `may`
unfoldable pub may : String → Principal → Bool
unfolding contains
may scope p = elim p.scopes [ none ↦ true | some held ↦ contains scope held ]

abbrev pub user_of : Backend → String → Option String → Option User
user_of b tenant_id none = none
user_of b tenant_id (some user_id) = b.user tenant_id user_id

-- The permissions by the live record of the user, and by the given role where there is none.
unfoldable pub permissions_of : Backend → String → Role → Option User → List String
unfolding effective_permissions
permissions_of b tenant_id role none =
    if is_owner role
    then effective_permissions true []
    else effective_permissions false (b.permissions_for_ids tenant_id [])
permissions_of b tenant_id role (some u) =
    if is_owner u.role
    then effective_permissions true []
    else effective_permissions false (b.permissions_for_ids tenant_id u.group_ids)

-- `_resolve_permissions`
unfoldable pub resolve_permissions : Backend → String → Option String → Role → List String
unfolding permissions_of
resolve_permissions b tenant_id user_id role =
    permissions_of b tenant_id role (user_of b tenant_id user_id)

-- `doc["scopes"] or DEFAULT_KEY_SCOPES`
abbrev pub or_default : List String → List String
or_default [] = default_key_scopes
or_default (s ∷ ss) = s ∷ ss

unfoldable pub key_scopes : Option (List String) → List String → List String
unfolding normalise_scopes allowed_scopes_for
key_scopes none perms = allowed_scopes_for perms
key_scopes (some scopes) perms = normalise_scopes (or_default scopes) perms

unfoldable pub token_principal : Backend → Token → Principal
unfolding resolve_permissions
token_principal b t = record {
  tenant_id = t.tenant_id;
  user_id = t.sub;
  role = t.role;
  method = jwt;
  permissions = resolve_permissions b t.tenant_id t.sub t.role;
  scopes = none;
}

unfoldable pub key_principal : Backend → Key → Principal
unfolding resolve_permissions key_scopes
key_principal b k =
    let perms = resolve_permissions b k.tenant_id k.created_by k.role in
    record {
      tenant_id = k.tenant_id;
      user_id = k.created_by;
      role = k.role;
      method = apikey;
      permissions = perms;
      scopes = some (key_scopes k.scopes perms);
    }

unfoldable pub from_token : Backend → Option Token → Option Principal
unfolding token_principal
from_token b none = none
from_token b (some t) = some (token_principal b t)

unfoldable pub from_key : Backend → Option Key → Option Principal
unfolding key_principal
from_key b none = none
from_key b (some k) = if k.revoked then none else some (key_principal b k)

-- `_resolve_principal`: a bearer token is used alone, also where a key is sent with it.
unfoldable pub resolve_principal : Backend → Headers → Option Principal
unfolding from_token from_key
resolve_principal b h = elim h.bearer [
  | some token ↦ from_token b (b.decode_token token)
  | none ↦ elim h.api_key [ some key ↦ from_key b (b.key_by_hash key) | none ↦ none ]
]

-- _SAFE_METHODS
abbrev pub safe_methods : List String
safe_methods = "GET" ∷ "HEAD" ∷ "OPTIONS" ∷ []

-- `require_permission`
unfoldable pub require_permission : String → Principal → Option Principal
unfolding has
require_permission perm p = if not (has perm p) then none else some p

-- `require_router_access`
unfoldable pub require_router_access : String → String → Principal → Option Principal
unfolding has
require_router_access write_permission method p =
    if not (has view p)
    then none
    else if not (contains method safe_methods) && not (has write_permission p)
    then none
    else some p
