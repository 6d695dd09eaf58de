-- ===== src/Repository/Documents.antt =====
-- What the repositories rely on in the collection, as MongoDB documents `update_one` and `find_one`.
use exact_surface.Prelude.{◌≡◌, ◌≢◌, Bool, true, false, none, some}
use exact_surface.Repository.{text, Doc, Filter, Collection}

-- `over` written on top of `base`.
unfoldable pub written : Doc → Doc → Doc
written base over k = elim (over k) [ some v ↦ some v | none ↦ base k ]

-- An update that leaves the two fields of the filter alone.
pub record KeepsKey (set : Doc) : Type 0 where
  pub tenant : set "tenant_id" ≡ none
  pub fingerprint : set "fingerprint" ≡ none

-- An insert of the document that the filter asks for.
pub record Names (f : Filter) (on_insert : Doc) : Type 0 where
  pub tenant : on_insert "tenant_id" ≡ some (text f.tenant_id)
  pub fingerprint : on_insert "fingerprint" ≡ some (text f.fingerprint)

pub record IsDocumented {C : Type 0} (mongo : Collection C) : Type 0 where
  -- A document that matches gets the fields of `$set`, and `$setOnInsert` is ignored.
  pub updates :
      (f : Filter) (u : Bool) (on_insert set d : Doc) (c : C)
      → KeepsKey set
      → mongo.find_one f c ≡ some d
      → ((mongo.update_one f u on_insert set c).1 ≡ false)
        × (mongo.find_one f (mongo.update_one f u on_insert set c).0 ≡ some (written d set))
  -- With `upsert`, a document that is missing is inserted from both.
  pub inserts :
      (f : Filter) (on_insert set : Doc) (c : C)
      → KeepsKey set
      → Names f on_insert
      → mongo.find_one f c ≡ none
      → ((mongo.update_one f true on_insert set c).1 ≡ true)
        × (mongo.find_one f (mongo.update_one f true on_insert set c).0
            ≡ some (written on_insert set))
  -- Another document stays as it was.
  pub frames :
      (f g : Filter) (u : Bool) (on_insert set : Doc) (c : C)
      → KeepsKey set
      → g ≢ f
      → (u ≡ true → Names f on_insert)
      → mongo.find_one g (mongo.update_one f u on_insert set c).0 ≡ mongo.find_one g c
