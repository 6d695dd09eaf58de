-- ===== src/Access.antt =====
-- core/permissions.py: what a member and an API key may do. A `frozenset` is a list with a
-- membership test.
pub mod Principal
pub mod Narrowing
pub mod Guards
use exact_surface.Prelude.{
  String, Bool, true, ◌||◌, List, [], ◌∷◌, keep, any, if◌then◌else◌, Dict, keys, contains, insert,
  string_eq,
}

abbrev pub view : String
view = "view"

abbrev pub programs_manage : String
programs_manage = "programs.manage"

abbrev pub settings_manage : String
settings_manage = "settings.manage"

abbrev pub assignable_permissions : List String
assignable_permissions = view ∷ programs_manage ∷ settings_manage ∷ []

-- _MANAGE_PERMISSIONS
abbrev pub manage_permissions : List String
manage_permissions = programs_manage ∷ settings_manage ∷ []

unfoldable pub normalise_permissions : List String → List String
unfolding contains insert
normalise_permissions perms =
    let valid = keep (λ p. contains p assignable_permissions) perms in
    if any (λ p. contains p manage_permissions) valid then insert view valid else valid

-- `group_permissions` is the union of the permissions of the member's groups.
unfoldable pub effective_permissions : Bool → List String → List String
unfolding normalise_permissions
effective_permissions is_owner group_permissions =
    if is_owner then assignable_permissions else normalise_permissions group_permissions

abbrev pub scope_read : String
scope_read = "read"

-- The scope and the permission that it needs.
abbrev pub scope_requires : Dict String String
scope_requires =
    (scope_read, view)
    ∷ ("scans:run", programs_manage)
    ∷ ("programs:write", programs_manage)
    ∷ ("playground:run", programs_manage)
    ∷ ("settings:write", settings_manage)
    ∷ []

abbrev pub default_key_scopes : List String
default_key_scopes = scope_read ∷ []

unfoldable pub allowed_scopes_for : List String → List String
unfolding contains
allowed_scopes_for perms = keys (keep (λ entry. contains entry.1 perms) scope_requires)

unfoldable pub normalise_scopes : List String → List String → List String
unfolding allowed_scopes_for contains insert
normalise_scopes requested creator_permissions =
    let granted = keep (λ s. contains s (allowed_scopes_for creator_permissions)) requested in
    if contains view creator_permissions then insert scope_read granted else granted
