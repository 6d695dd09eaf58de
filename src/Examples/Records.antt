-- ===== src/Examples/Records.antt =====
-- A collection in memory, in the manner of tests/fakes.py, and a finding in it; and the records of a
-- phase.
use exact_surface.Prelude.{
  String, contains, arith, ◌≡◌, ◌≢◌, refl, ap, sym, inl, inr, ◌⊎◌, Bool, true, false, Option, none,
  some, [], ◌∷◌, Dict, get, put, get-put, pair_eq, string_eq, ◌==◌, beq_refl, if◌then◌else◌,
  Bool-cases,
}
use exact_surface.Lifecycle.{new, triaged, false_positive, value}
use exact_surface.Lifecycle.Paths.{History}
use exact_surface.Repository.{
  text, Doc, Filter, Collection, Model, upsert, mark_false_positive, parse_state, Value, json,
  notes,
}
use exact_surface.Repository.Documents.{written, IsDocumented}
use exact_surface.Repository.Observed.{IsObserved, upsert-known, upsert_twice}
use exact_surface.Repository.Retired.{mark_false_positive-IsAllowed, upsert-state}

abbrev Store : Type 0
Store = Dict (String × String) Doc

abbrev key_of : Filter → String × String
key_of f = (f.tenant_id, f.fingerprint)

write_found : Filter → Bool → Doc → Doc → Store → Option Doc → Store × Bool
write_found f u on_insert set c (some d) = (put (key_of f) (written d set) c, false)
write_found f true on_insert set c none = (put (key_of f) (written on_insert set) c, true)
write_found f false on_insert set c none = (c, false)

-- An object as the text that tells its last reason.
abbrev noted : Option Value → Dict String Value → Value
noted raw fields = elim (get "retired_reason" fields) [ none ↦ json "" | some v ↦ v ]

abbrev memory : Collection Store
memory = record {
  set_in = noted;
  find_one = λ f c. get (key_of f) c;
  update_one = λ f u on_insert set c. write_found f u on_insert set c (get (key_of f) c);
}

put-same : (f : Filter) (d : Doc) (c : Store) → get (key_of f) (put (key_of f) d c) ≡ some d
put-same f d c = ground (arith, get-put (key_of f) (key_of f) d c, beq_refl (key_of f))

put-other :
    (f g : Filter) (d : Doc) (c : Store)
    → g ≢ f
    → get (key_of g) (put (key_of f) d c) ≡ get (key_of g) c
put-other f g d c h = elim (Bool-cases (key_of f == key_of g)) [
  | inl t ↦
      let e = (pair_eq.beq_iff (key_of f) (key_of g)).0 t in
      absurd (h (ap (λ p. record { tenant_id = p.0; fingerprint = p.1 }) (sym e)))
  | inr n ↦ ground (arith, get-put (key_of f) (key_of g) d c, n)
]

write_found-frame :
    (f g : Filter) (u : Bool) (on_insert set : Doc) (c : Store) (o : Option Doc)
    → g ≢ f
    → get (key_of g) (write_found f u on_insert set c o).0 ≡ get (key_of g) c
unfolding write_found
write_found-frame f g u on_insert set c (some d) h = put-other f g _ c h
write_found-frame f g true on_insert set c none h = put-other f g _ c h
write_found-frame f g false on_insert set c none h = refl

memory-IsDocumented : IsDocumented memory
unfolding write_found
memory-IsDocumented = record {
  updates = λ f u on_insert set d c k h. (rw h refl, rw h (put-same f (written d set) c));
  inserts = λ f on_insert set c k n h. (rw h refl, rw h (put-same f (written on_insert set) c));
  frames =
      λ f g u on_insert set c k h n. write_found-frame f g u on_insert set c (get (key_of f) c) h;
}

abbrev found : Filter
found = record { tenant_id = "t"; fingerprint = "f" }

abbrev other : Filter
other = record { tenant_id = "u"; fingerprint = "f" }

false-true : false ≡ true → ⊥
false-true h = cc

other-found : other ≢ found
other-found e = false-true ((string_eq.beq_iff "u" "t").1 (ap (λ f. f.tenant_id) e))

-- A finding as a scanner builds it.
abbrev finding : Model
finding = record {
  key = found;
  fields = λ k. if k == "state" then some (text (value new)) else none;
}

-- What a person has marked as a false positive, and what nobody has judged.
abbrev judged : Doc
judged k = if k == "state" then some (text (value false_positive)) else none

abbrev unjudged : Doc
unjudged k = if k == "state" then some (text (value triaged)) else none

abbrev store : Store
store = (key_of found, judged) ∷ []

abbrev pending : Store
pending = (key_of found, unjudged) ∷ []

upsert-known_example :
    ((upsert [] memory 7 finding store).1.inserted ≡ false)
    × ((after : Doc) × (get ("t", "f") (upsert [] memory 7 finding store).0 ≡ some after)
        × IsObserved [] 7 finding judged after)
unfolding get
upsert-known_example = upsert-known memory memory-IsDocumented [] 7 finding store judged refl

upsert_twice_example :
    (upsert [] memory 9 finding (upsert [] memory 7 finding store).0).1.inserted ≡ false
upsert_twice_example = (upsert_twice memory memory-IsDocumented [] 7 9 finding store).0

mark_false_positive-IsAllowed_example :
    (mark_false_positive memory "gone" 7 found pending ≡ (pending, false))
    ⊎ ((before : Doc) × (after : Doc) × ((mark_false_positive memory "gone" 7 found pending).1
          ≡ true)
        × (get ("t", "f") pending ≡ some before)
        × (get ("t", "f") (mark_false_positive memory "gone" 7 found pending).0 ≡ some after)
        × ((parse_state (before "state") ≡ some new)
            ⊎ (parse_state (before "state") ≡ some triaged))
        × (parse_state (after "state") ≡ some false_positive)
        × (after "raw" ≡ some (noted (before "raw") (notes "gone" 7)))
        × ((k : String)
            → contains k ("state" ∷ "updated_at" ∷ "raw" ∷ []) ≡ false
            → after k ≡ before k))
mark_false_positive-IsAllowed_example =
    mark_false_positive-IsAllowed memory memory-IsDocumented "gone" 7 found pending

-- A finding that a person has judged is new again once a scanner has seen it.
upsert-state_example :
    ((after : Doc) × (get ("t", "f") (upsert [] memory 7 finding store).0 ≡ some after)
      × (after "state" ≡ some (text (value new))))
    × (false_positive ≢ new → new ≡ new → ¬ History false_positive new)
unfolding get
upsert-state_example =
    upsert-state memory memory-IsDocumented false_positive new 7 finding store judged refl refl refl
