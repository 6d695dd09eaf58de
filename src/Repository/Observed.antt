-- ===== src/Repository/Observed.antt =====
-- db/base.py: what an observation of a record keeps and what it overwrites.
use exact_surface.Prelude.{
  ℕ, String, ◌≡◌, ◌≢◌, refl, sym, inl, inr, true, false, none, some, List, arith, contains,
  string_eq, Option-cases,
}
use exact_surface.Repository.{
  Value, flag, time, Doc, Filter, Collection, preserve, Model, dump, or_else, is_stamp,
  set_on_insert, set_fields, upsert,
}
use exact_surface.Repository.Documents.{written, KeepsKey, Names, IsDocumented}

module _ (fields : List String) (now : ℕ) (m : Model) where
  set_fields-KeepsKey : KeepsKey (set_fields fields now m)
  unfolding set_fields contains dump
  set_fields-KeepsKey = record { tenant = refl; fingerprint = refl }

  set_on_insert-Names : Names m.key (set_on_insert fields now m)
  unfolding set_on_insert contains dump
  set_on_insert-Names = record { tenant = refl; fingerprint = refl }

-- An observation says the same of every field but the two times, whenever it is made.
set_fields-now :
    (fields : List String) (now later : ℕ) (m : Model) (k : String)
    → is_stamp k ≡ false
    → set_fields fields now m k ≡ set_fields fields later m k
unfolding set_fields
set_fields-now fields now later m k h = rw h refl

written_twice : (x s t : Doc) (k : String) → s k ≡ t k → written x s k ≡ written (written x s) t k
unfolding written
written_twice x s t k h = elim (Option-cases (s k)) [
  | inl e ↦ rw (written, sym h, e, written, e) refl
  | inr (v, e) ↦ ground (arith, h, e)
]

-- The document of an observed record: what the user owns is kept, what the scanner saw is
-- overwritten, and the two times are those of the observation.
pub record IsObserved (fields : List String) (now : ℕ) (m : Model) (before after : Doc)
    : Type 0 where
  pub keeps :
      (k : String) → is_stamp k ≡ false → contains k (preserve fields) ≡ true → after k ≡ before k
  pub overwrites :
      (k : String) (v : Value)
      → is_stamp k ≡ false
      → contains k (preserve fields) ≡ false
      → dump m k ≡ some v
      → after k ≡ some v
  pub stamps : (k : String) → is_stamp k ≡ true → after k ≡ some (time now)

written-IsObserved :
    (fields : List String) (now : ℕ) (m : Model) (d : Doc)
    → IsObserved fields now m d (written d (set_fields fields now m))
unfolding written set_fields
written-IsObserved fields now m d = record {
  keeps = λ k h p. rw (written, set_fields, h, p) refl;
  overwrites = λ k v h p e. rw (written, set_fields, h, p, e) refl;
  stamps = λ k h. rw (written, set_fields, h) refl;
}

module _ {C : Type 0} (mongo : Collection C) (ok : IsDocumented mongo) (fields : List String) where
  -- Observing a record that is stored inserts nothing: its identity, its first times, whether it is
  -- new and what the user set stay as stored, every other field that the scanner reports is
  -- overwritten, and the two last times are those of the observation.
  pub upsert-known :
      (now : ℕ) (m : Model) (c : C) (d : Doc)
      → mongo.find_one m.key c ≡ some d
      → ((upsert fields mongo now m c).1.inserted ≡ false)
        × ((after : Doc) × (mongo.find_one m.key (upsert fields mongo now m c).0 ≡ some after)
            × IsObserved fields now m d after)
  unfolding upsert
  upsert-known now m c d h =
      let r =
        ok.updates m.key true (set_on_insert fields now m) (set_fields fields now m) d c
          (set_fields-KeepsKey fields now m) h in
      (r.0, (written d (set_fields fields now m), r.1, written-IsObserved fields now m d))

  -- Observing a record that is not stored inserts it, marked as new.
  pub upsert-missing :
      (now : ℕ) (m : Model) (c : C)
      → mongo.find_one m.key c ≡ none
      → ((upsert fields mongo now m c).1.inserted ≡ true)
        × ((after : Doc) × (mongo.find_one m.key (upsert fields mongo now m c).0 ≡ some after)
            × (after "is_new" ≡ some (flag true))
            × (after "first_seen" ≡ some (or_else (m.fields "first_seen") (time now)))
            × (after "last_seen" ≡ some (time now)))
  unfolding upsert set_on_insert set_fields written contains dump
  upsert-missing now m c h =
      let r =
        ok.inserts m.key (set_on_insert fields now m) (set_fields fields now m) c
          (set_fields-KeepsKey fields now m) (set_on_insert-Names fields now m) h in
      (r.0, (written (set_on_insert fields now m) (set_fields fields now m), r.1, refl, refl, refl))

  -- The document after one write, whether the record was stored or not.
  upsert-written :
      (now : ℕ) (m : Model) (c : C)
      → (x : Doc) × (mongo.find_one m.key (upsert fields mongo now m c).0
          ≡ some (written x (set_fields fields now m)))
  unfolding upsert
  upsert-written now m c =
      let set = set_fields fields now m in
      let first = set_on_insert fields now m in
      let safe = set_fields-KeepsKey fields now m in
      elim (Option-cases (mongo.find_one m.key c)) [
        | inl e ↦
            (first, (ok.inserts m.key first set c safe (set_on_insert-Names fields now m) e).1)
        | inr (d, e) ↦ (d, (ok.updates m.key true first set d c safe e).1)
      ]

  -- Observing a record again inserts nothing and changes no field but the two last times, whether
  -- it was stored before or not.
  pub upsert_twice :
      (now later : ℕ) (m : Model) (c : C)
      → let once = (upsert fields mongo now m c).0 in
        ((upsert fields mongo later m once).1.inserted ≡ false)
        × ((d : Doc) × (e : Doc) × (mongo.find_one m.key once ≡ some d)
            × (mongo.find_one m.key (upsert fields mongo later m once).0 ≡ some e)
            × ((k : String) → is_stamp k ≡ false → d k ≡ e k))
  unfolding upsert
  upsert_twice now later m c =
      let w = upsert-written now m c in
      let d = written w.0 (set_fields fields now m) in
      let again = set_fields fields later m in
      let r =
        ok.updates m.key true (set_on_insert fields later m) again d (upsert fields mongo now m c).0
          (set_fields-KeepsKey fields later m) w.1 in
      (
        r.0,
        (
          d,
          written d again,
          w.1,
          r.1,
          λ k h.
              written_twice w.0 (set_fields fields now m) again k
                (set_fields-now fields now later m k h),
        ),
      )

  -- No observation touches a record of another tenant or of another fingerprint.
  pub upsert_frame :
      (now : ℕ) (m : Model) (c : C) (g : Filter)
      → g ≢ m.key
      → mongo.find_one g (upsert fields mongo now m c).0 ≡ mongo.find_one g c
  unfolding upsert
  upsert_frame now m c g h =
      ok.frames m.key g true (set_on_insert fields now m) (set_fields fields now m) c
        (set_fields-KeepsKey fields now m) h (λ t. set_on_insert-Names fields now m)
