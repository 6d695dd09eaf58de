-- ===== src/Examples/Callers.antt =====
-- A member without groups, and the key of another.
use exact_surface.Prelude.{
  arith, String, ◌≡◌, refl, true, false, none, some, [], ◌∷◌, contains, string_eq, ◌==◌,
  if◌then◌else◌,
}
use exact_surface.Access.{view, programs_manage}
use exact_surface.Access.Principal.{
  owner, member, Token, Key, Backend, Headers, resolve_principal, token_principal, key_principal,
  require_router_access,
}
use exact_surface.Access.Guards.{
  IsBounded, resolve_principal-IsBounded, require_router_access-ungrouped,
}

abbrev key : Key
key = record {
  tenant_id = "t";
  created_by = some "ann";
  role = owner;
  revoked = false;
  scopes = some ("scans:run" ∷ "settings:write" ∷ []);
}

abbrev token : Token
token = record { tenant_id = "t"; sub = some "bob"; role = owner }

-- Ann is in a group that manages programs, Bob in none.
abbrev backend : Backend
backend = record {
  decode_token = λ s. some token;
  key_by_hash = λ s. some key;
  user = λ t u. some (record { role = member; group_ids = if u == "ann" then "g" ∷ [] else [] });
  permissions_for_ids = λ t ids. elim ids [ [] ↦ [] | g ∷ gs ↦ programs_manage ∷ [] ];
}

abbrev by_key : Headers
by_key = record { bearer = none; api_key = some "k" }

abbrev by_token : Headers
by_token = record { bearer = some "b"; api_key = some "k" }

resolve_principal-IsBounded_example : IsBounded (key_principal backend key)
unfolding resolve_principal
resolve_principal-IsBounded_example =
    resolve_principal-IsBounded backend by_key (key_principal backend key) refl

require_router_access-ungrouped_example :
    require_router_access programs_manage "GET" (token_principal backend token) ≡ none
unfolding resolve_principal
require_router_access-ungrouped_example =
    require_router_access-ungrouped backend by_token (token_principal backend token)
      (record { role = member; group_ids = [] }) refl refl refl refl programs_manage "GET"

view_only :
    (p : String) → contains p (view ∷ []) ≡ true → contains p (view ∷ programs_manage ∷ []) ≡ true
unfolding contains
view_only p h = ground arith
