-- ===== src/Scope/Host/Apex.antt =====
-- core/scope.py: which hosts belong to an apex.
use exact_surface.Prelude.{
  ◌≡◌, refl, ◌↔◌, true, ◌⊎◌, inl, inr, [], ◌∷◌, ◌++◌, arith, ap, ◌∙◌, text_beq, text_beq_iff,
  Bool-cases,
}
use exact_surface.Scope.Host.{Text, normal, ends_with, under_apex}

-- `s.endswith(t)` says that `s` is some prefix followed by `t`.
ends_with_sound : (s t : Text) → ends_with s t ≡ true → (p : Text) × (s ≡ p ++ t)
unfolding ends_with
ends_with_sound [] t h = ([], (text_beq_iff [] t).0 h)
ends_with_sound (c ∷ s) t h = elim (Bool-cases (text_beq (c ∷ s) t)) [
  | inl e ↦ ([], (text_beq_iff (c ∷ s) t).0 e)
  | inr f ↦ let r = ends_with_sound s t (ground arith) in (c ∷ r.0, ap (λ x. c ∷ x) r.1)
]

ends_with_self : (t : Text) → ends_with t t ≡ true
unfolding ends_with
ends_with_self [] = refl
ends_with_self (c ∷ t) = rw ((text_beq_iff (c ∷ t) (c ∷ t)).1 refl)

ends_with-append : (p t : Text) → ends_with (p ++ t) t ≡ true
unfolding ends_with
ends_with-append [] t = ends_with_self t
ends_with-append (c ∷ p) t = ground (arith, ends_with-append p t)

-- A host is under an apex exactly if it is that name or some labels, a dot and that name, with the
-- apex lowered and its trailing dots dropped: `notexample.com` is not under `example.com`.
pub under_apex_iff :
    (h apex : Text)
    → (under_apex h apex ≡ true)
      ↔ ((h ≡ normal apex) ⊎ ((p : Text) × (h ≡ p ++ (b'.' ∷ normal apex))))
unfolding under_apex
under_apex_iff h apex = (to, from)
  where
    to :
        under_apex h apex ≡ true
        → (h ≡ normal apex) ⊎ ((p : Text) × (h ≡ p ++ (b'.' ∷ normal apex)))
    to q = elim (Bool-cases (text_beq h (normal apex))) [
      | inl e ↦ inl ((text_beq_iff h (normal apex)).0 e)
      | inr f ↦ inr (ends_with_sound h (b'.' ∷ normal apex) (ground arith))
    ]

    from :
        (h ≡ normal apex) ⊎ ((p : Text) × (h ≡ p ++ (b'.' ∷ normal apex)))
        → under_apex h apex ≡ true
    from (inl e) = rw ((text_beq_iff h (normal apex)).1 e)
    from (inr (p, e)) =
        let t : ends_with h (b'.' ∷ normal apex) ≡ true =
          ap (λ x. ends_with x (b'.' ∷ normal apex)) e ∙ ends_with-append p _ in
        ground arith
