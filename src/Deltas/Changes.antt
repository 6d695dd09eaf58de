-- ===== src/Deltas/Changes.antt =====
-- modules/intelligence/delta_monitor.py: when there is a change.
use exact_surface.Prelude.{
  String, ◌≡◌, refl, ap, sym, ◌↔◌, Bool, true, false, not, Option, none, some, List, [], ◌∷◌, Keyed,
  nat_eq, arith, In, here, there, In-cons, inl, inr, contains→In, In→contains, string_eq, subst,
}
use mathlib.Core.Option.{some-injective}
use exact_surface.Deltas.{
  Delta, status_change, title_change, tech_change, Endpoint, same, subset, same_set, append_if,
  compute_endpoint_deltas,
}

same_iff : {A : Type 0} ⦃k : Keyed A⦄ (a b : Option A) → (same a b ≡ true) ↔ (a ≡ b)
same_iff none none = (λ h. refl, λ h. refl)
same_iff ⦃k⦄ (some a) (some b) =
    (λ h. ap some ((k.beq_iff a b).0 h), λ h. (k.beq_iff a b).1 (some-injective _ _ h))
same_iff none (some b) = (λ h. cc, λ h. cc)
same_iff (some a) none = (λ h. cc, λ h. cc)

subset_iff : (xs ys : List String) → (subset xs ys ≡ true) ↔ ((x : String) → In x xs → In x ys)
subset_iff [] ys = (λ h x m. elim m [ ], λ h. refl)
subset_iff (x ∷ xs) ys =
    let ih = subset_iff xs ys in
    (
      λ h y m. elim (In-cons m) [
        | inl q ↦ subst (λ z. In z ys) (sym q) (contains→In x ys (ground (arith, h)))
        | inr i ↦ ih.0 (ground (arith, h)) y i
      ],
      λ h. ground (arith, In→contains x ys (h x (here refl)), ih.1 (λ y m. h y (there m))),
    )

-- Nothing that is read of the endpoint has changed.
pub record IsUnchanged (old new : Endpoint) : Type 0 where
  pub status : old.status_code ≡ new.status_code
  pub content : old.content_hash ≡ new.content_hash
  pub kept_tech : (x : String) → In x old.tech → In x new.tech
  pub no_new_tech : (x : String) → In x new.tech → In x old.tech

append_if-empty :
    (b : Bool) (d : Delta) (ds : List Delta) → (append_if b d ds ≡ []) ↔ ((b ≡ false) × (ds ≡ []))
append_if-empty true d [] = (λ h. cc, λ h. cc)
append_if-empty true d (e ∷ ds) = (λ h. cc, λ h. cc)
append_if-empty false d ds = (λ h. (refl, h), λ h. h.1)

not-false : (b : Bool) → (not b ≡ false) ↔ (b ≡ true)
not-false b = ground arith

-- There is no event exactly if the status and the content are the same and so is the set of technologies: a
-- change of their order or number, or of the title alone, is none.
pub compute_endpoint_deltas_iff :
    (old new : Endpoint) → (compute_endpoint_deltas (some old) new ≡ []) ↔ IsUnchanged old new
unfolding compute_endpoint_deltas
compute_endpoint_deltas_iff old new =
    let tech = same_set old.tech new.tech in
    let content = same old.content_hash new.content_hash in
    let status = same old.status_code new.status_code in
    let one = append_if (not status) (status_change old.status_code new.status_code) [] in
    let two = append_if (not content) (title_change old.title new.title) one in
    let first = append_if-empty (not status) (status_change old.status_code new.status_code) [] in
    let second = append_if-empty (not content) (title_change old.title new.title) one in
    let third = append_if-empty (not tech) (tech_change old.tech new.tech) two in
    (
      λ h.
          let (t, r) = third.0 h in
          let (c, q) = second.0 r in
          let (s, z) = first.0 q in
          let same_tech : same_set old.tech new.tech ≡ true = (not-false tech).0 t in
          record {
            status = (same_iff old.status_code new.status_code).0 ((not-false status).0 s);
            content = (same_iff old.content_hash new.content_hash).0 ((not-false content).0 c);
            kept_tech = (subset_iff old.tech new.tech).0 (ground (arith, same_tech));
            no_new_tech = (subset_iff new.tech old.tech).0 (ground (arith, same_tech));
          },
      λ u.
          let s = (same_iff old.status_code new.status_code).1 u.status in
          let c = (same_iff old.content_hash new.content_hash).1 u.content in
          let onward = (subset_iff old.tech new.tech).1 u.kept_tech in
          let back = (subset_iff new.tech old.tech).1 u.no_new_tech in
          let t : same_set old.tech new.tech ≡ true = ground (arith, onward, back) in
          third.1 (
            (not-false tech).1 t,
            second.1 ((not-false content).1 c, first.1 ((not-false status).1 s, refl)),
          ),
    )
