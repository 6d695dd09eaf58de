-- ===== src/Scope/Host.antt =====
-- The host names of core/scope.py, as their code points: lower(), rstrip(".") and endswith(), and
-- `ProgramScope.owns_host` over them. Names are ASCII, as DNS names are.
pub mod Apex
use exact_surface.Prelude.{
  ℕ, zero, suc, ◌+◌, ◌-◌, ◌≡◌, refl, Bool, true, false, ◌&&◌, ◌||◌, List, [], ◌∷◌, ◌++◌, map, leb,
  nat_beq, text_beq, any, if◌then◌else◌, length, arith, ◌==◌, text_eq,
}
use mathlib.Core.List.{reverse}

abbrev pub Text : Type 0
Text = List ℕ

unfoldable pub lower_char : ℕ → ℕ
lower_char c = if leb b'A' c && leb c b'Z' then c + 32 else c

unfoldable pub lower : Text → Text
unfolding lower_char
lower = map lower_char

-- s.lstrip(".") and s.rstrip(".")
unfoldable pub strip_dots : Text → Text
strip_dots [] = []
strip_dots (c ∷ s) = let rest = strip_dots s in if nat_beq c b'.' then rest else c ∷ s

unfoldable pub rstrip_dots : Text → Text
unfolding strip_dots
rstrip_dots s = reverse (strip_dots (reverse s))

-- h.lower().rstrip(".")
unfoldable pub normal : Text → Text
unfolding lower rstrip_dots
normal h = rstrip_dots (lower h)

-- s.endswith(t)
unfoldable pub ends_with : Text → Text → Bool
ends_with [] t = text_beq [] t
ends_with (c ∷ s) t = text_beq (c ∷ s) t || ends_with s t

-- The body of the loop of `owns_host`, for a host that is already normal.
unfoldable pub under_apex : Text → Text → Bool
unfolding normal ends_with
under_apex h apex = let a = normal apex in text_beq h a || ends_with h (b'.' ∷ a)

unfoldable pub owns_host : List Text → Text → Bool
unfolding under_apex
owns_host apexes host = let h = normal host in any (under_apex h) apexes

-- h in {x.lower().rstrip(".") for x in excluded_hosts}
unfoldable pub on_exclusion_list : List Text → Text → Bool
unfolding normal
on_exclusion_list excluded h = any (λ x. text_beq (normal x) h) excluded
