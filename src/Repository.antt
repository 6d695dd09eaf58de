-- ===== src/Repository.antt =====
-- db/base.py and db/findings.py: the upsert by tenant and fingerprint, and the retirement of a
-- finding. A document maps each field to its value, if it has it; the collection of the database is
-- a parameter.
pub mod Documents
pub mod Observed
pub mod Retired
use exact_surface.Prelude.{
  ℕ, ◌+◌, String, Bool, true, false, not, ◌&&◌, ◌||◌, Option, none, some, List, [], ◌∷◌, ◌++◌,
  if◌then◌else◌, ◌==◌, Dict, contains, string_eq,
}
use exact_surface.Lifecycle.{
  FindingState, new, triaged, confirmed, false_positive, accepted_risk, resolved, regressed,
  state_beq, can_transition, value,
}

-- A stored value; a list, a number and an object are their JSON text.
pub data Value : Type 0 where
  text : String → Value
  flag : Bool → Value
  time : ℕ → Value
  json : String → Value

abbrev pub Doc : Type 0
Doc = String → Option Value

-- {"tenant_id": _, "fingerprint": _}
pub record Filter : Type 0 where
  pub tenant_id : String
  pub fingerprint : String

-- What the repositories call; `update_one` takes `upsert`, `$setOnInsert` and `$set`, and tells
-- whether it inserted.
pub record Collection (C : Type 0) : Type 0 where
  pub find_one : Filter → C → Option Doc
  pub update_one : Filter → Bool → Doc → Doc → C → C × Bool
  -- What the object in a field becomes when $set names paths under it, {"raw.x": _} for `raw`.
  pub set_in : Option Value → Dict String Value → Value

-- IMMUTABLE_FIELDS
abbrev pub immutable_fields : List String
immutable_fields =
    "tenant_id" ∷ "program_id" ∷ "fingerprint" ∷ "first_seen" ∷ "created_at" ∷ "is_new" ∷ []

-- A model; `fields` are the fields other than the two of the filter.
pub record Model : Type 0 where
  pub key : Filter
  pub fields : Doc

-- model_dump
unfoldable pub dump : Model → Doc
dump m k =
    if k == "tenant_id"
    then some (text m.key.tenant_id)
    else if k == "fingerprint"
    then some (text m.key.fingerprint)
    else m.fields k

abbrev pub or_else : Option Value → Value → Value
or_else none v = v
or_else (some w) v = w

-- A result of `upsert`.
pub record UpsertResult : Type 0 where
  pub fingerprint : String
  pub inserted : Bool

abbrev pub empty : Doc
empty k = none

abbrev pub is_stamp : String → Bool
is_stamp k = k == "last_seen" || k == "updated_at"

-- `preserve_fields` is the PRESERVE_FIELDS of the repository.
module _ (preserve_fields : List String) where
  abbrev pub preserve : List String
  preserve = immutable_fields ++ preserve_fields

  unfoldable pub set_on_insert : ℕ → Model → Doc
  unfolding dump contains
  set_on_insert now m k =
      let given = if contains k preserve then dump m k else none in
      if k == "is_new"
      then some (flag true)
      else if k == "first_seen" || k == "created_at"
      then some (or_else given (time now))
      else given

  unfoldable pub set_fields : ℕ → Model → Doc
  unfolding dump contains
  set_fields now m k =
      if is_stamp k then some (time now) else if contains k preserve then none else dump m k

  unfoldable pub upsert : {C : Type 0} → Collection C → ℕ → Model → C → C × UpsertResult
  upsert mongo now m c =
      let res = mongo.update_one m.key true (set_on_insert now m) (set_fields now m) c in
      (res.0, record { fingerprint = m.key.fingerprint; inserted = res.1 })

  -- `upsert_many`: the models that were new.
  unfoldable pub upsert_many : {C : Type 0} → Collection C → ℕ → List Model → C → C × ℕ
  unfolding upsert
  upsert_many mongo now [] c = (c, 0)
  upsert_many mongo now (m ∷ ms) c =
      let one = upsert mongo now m c in
      let rest = upsert_many mongo now ms one.0 in
      (rest.0, if one.1.inserted then rest.1 + 1 else rest.1)

-- FindingState(doc.get("state") or "new"), which raises ValueError.
unfoldable pub parse_state : Option Value → Option FindingState
parse_state none = some new
parse_state (some (text s)) =
    if s == ""
    then some new
    else if s == value new
    then some new
    else if s == value triaged
    then some triaged
    else if s == value confirmed
    then some confirmed
    else if s == value false_positive
    then some false_positive
    else if s == value accepted_risk
    then some accepted_risk
    else if s == value resolved
    then some resolved
    else if s == value regressed
    then some regressed
    else none
parse_state (some (flag b)) = if b then none else some new
parse_state (some (time t)) = none
parse_state (some (json j)) = none

-- The paths under `raw` that a retirement sets.
abbrev pub notes : String → ℕ → Dict String Value
notes reason now =
    ("verified", flag false) ∷ ("retired_reason", text reason) ∷ ("retired_at", time now) ∷ []

-- The $set of `mark_false_positive` on a document that holds `raw`.
unfoldable pub retirement : {C : Type 0} → Collection C → String → ℕ → Option Value → Doc
retirement mongo reason now raw k =
    if k == "state"
    then some (text (value false_positive))
    else if k == "updated_at"
    then some (time now)
    else if k == "raw"
    then some (mongo.set_in raw (notes reason now))
    else none

-- The tests of `mark_false_positive` on the stored state.
unfoldable pub retirable : Option FindingState → Bool
unfolding can_transition
retirable none = false
retirable (some current) =
    not (state_beq current false_positive) && can_transition current false_positive

unfoldable pub mark_found :
    {C : Type 0} → Collection C → String → ℕ → Filter → C → Option Doc → C × Bool
unfolding parse_state retirable
mark_found mongo reason now f c none = (c, false)
mark_found mongo reason now f c (some doc) =
    let done = mongo.update_one f false empty (retirement mongo reason now (doc "raw")) c in
    if retirable (parse_state (doc "state")) then (done.0, true) else (c, false)

unfoldable pub mark_false_positive :
    {C : Type 0} → Collection C → String → ℕ → Filter → C → C × Bool
unfolding mark_found
mark_false_positive mongo reason now f c = mark_found mongo reason now f c (mongo.find_one f c)

-- The loop of `retire_unreproduced` over the fingerprints of the rows that `find` returned.
unfoldable pub retire_rows :
    {C : Type 0} → Collection C → String → ℕ → String → List String → List String → C → C × ℕ
unfolding mark_false_positive contains
retire_rows mongo reason now tenant_id [] kept c = (c, 0)
retire_rows mongo reason now tenant_id (fp ∷ rest) kept c =
    let f : Filter = record { tenant_id = tenant_id; fingerprint = fp } in
    let one = if contains fp kept then (c, false) else mark_false_positive mongo reason now f c in
    let after = retire_rows mongo reason now tenant_id rest kept one.0 in
    (after.0, if one.1 then after.1 + 1 else after.1)

-- `retire_unreproduced`, with the fingerprints that `find` answers.
unfoldable pub retire_unreproduced :
    {C : Type 0}
    → Collection C
    → (find : List String → C → List String) → String
    → ℕ
    → String
    → (locations kept : List String) → C
    → C × ℕ
unfolding retire_rows
retire_unreproduced mongo find reason now tenant_id [] kept c = (c, 0)
retire_unreproduced mongo find reason now tenant_id (l ∷ ls) kept c =
    retire_rows mongo reason now tenant_id (find (l ∷ ls) c) kept c
