-- ===== src/Modules/Spine.antt =====
-- core/modules.py: the essential modules of the registry cannot be lost.
use exact_surface.Prelude.{
  String, ◌≡◌, refl, sym, subst, ◌∙◌, ◌⊎◌, Bool, true, not, ◌&&◌, ◌||◌, some, List, [], ◌∷◌, arith,
  In, here, there, contains, string_eq, inl, inr, and_true,
}
use mathlib.Core.Option.{some-injective}
use exact_surface.Modules.{ModuleSpec, ModuleState, is_enabled, resolve}
use exact_surface.Modules.Registry.{modules}
use exact_surface.Modules.Closure.{Supports}
use exact_surface.Modules.Choice.{IsWanted, resolve-IsAnswer}

all_of : (String → Bool) → List String → Bool
all_of p [] = true
all_of p (x ∷ xs) = p x && all_of p xs

all_of-In :
    (p : String → Bool) (xs : List String) {a : String} → all_of p xs ≡ true → In a xs → p a ≡ true
unfolding all_of
all_of-In p [] h m = elim m [ ]
all_of-In p (x ∷ xs) h (here e) = subst (λ y. p y ≡ true) (sym e) (and_true (p x) _ h).0
all_of-In p (x ∷ xs) h (there m) = all_of-In p xs (and_true (p x) _ h).1 m

-- A set of names holds all that its members require.
supports : List String → List ModuleSpec → Bool
supports core [] = true
supports core (m ∷ ms) =
    (not (contains m.name core) || all_of (λ r. contains r core) m.requires) && supports core ms

supports_sound :
    (core : List String) (ms : List ModuleSpec)
    → supports core ms ≡ true
    → Supports ms (λ n. contains n core ≡ true)
unfolding supports
supports_sound core [] h m k s r q = elim k [ ]
supports_sound core (x ∷ ms) h m (here e) s r q =
    let own = (and_true _ (supports core ms) h).0 in
    let held : contains x.name core ≡ true = subst (λ y. contains y.name core ≡ true) e s in
    all_of-In (λ y. contains y core) x.requires (ground (arith, own, held))
      (subst (λ y. In r y.requires) e q)
supports_sound core (x ∷ ms) h m (there k) s r q =
    supports_sound core ms (and_true _ (supports core ms) h).1 m k s r q

abbrev spine : List String
spine = "ingest" ∷ "probe" ∷ []

spine_cases : (n : String) → contains n spine ≡ true → (n ≡ "ingest") ⊎ (n ≡ "probe")
unfolding contains
spine_cases n h = ground (arith, string_eq.beq_iff "ingest" n, string_eq.beq_iff "probe" n)

spine-IsWanted :
    (opted_in opted_out : List String) (n : String)
    → contains n spine ≡ true
    → IsWanted opted_in opted_out modules n
spine-IsWanted opted_in opted_out n h = elim (spine_cases n h) [
  | inl e ↦ (_, there (here refl), sym e, inl refl)
  | inr e ↦ (_, there (there (there (there (there (here refl))))), sym e, inl refl)
]

-- Whatever a user turns off, and whether or not anything is turned on, subdomain discovery and
-- probing run.
pub spine-is_enabled :
    (opted_in opted_out : List String) (r : ModuleState)
    → resolve modules opted_in opted_out ≡ some r
    → (is_enabled r "ingest" ≡ true) × (is_enabled r "probe" ≡ true)
unfolding is_enabled supports contains all_of
spine-is_enabled opted_in opted_out r e =
    let (r', e', answer) = resolve-IsAnswer modules opted_in opted_out in
    let has =
      answer.largest (λ n. contains n spine ≡ true) (supports_sound spine modules refl)
        (spine-IsWanted opted_in opted_out) in
    let same = some-injective r' r (sym e' ∙ e) in
    let kept = λ (n : String) (h : contains n spine ≡ true).
      subst (λ (x : ModuleState). contains n x.enabled ≡ true) same (has n h) in
    (kept "ingest" refl, kept "probe" refl)
