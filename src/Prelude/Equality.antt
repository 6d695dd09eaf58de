-- ===== src/Prelude/Equality.antt =====
-- Python's `==` on the values that serve as keys, by an instance for each type.
use Prim.Native.Nat.{ℕ}
use Prim.Native.String.{String}
use mathlib.Core.Path.{◌≡◌, refl, ap₂}
use mathlib.Core.Logic.{◌↔◌}
use mathlib.Core.Bool.{Bool, true, false, ◌&&◌}
use mathlib.Core.List.{List, [], ◌∷◌}
use native.Mathlib.Omega.{arith}
use text.Mathlib.Text.{◌==◌ as str_eq}
use text.Mathlib.TextEquality.{eq_iff}
use exact_surface.Prelude.Tests.{nat_beq, and_true}

-- A Boolean test that decides equality.
pub record Keyed {κ} (K : Type κ) : Type κ where
  pub beq : K → K → Bool
  pub beq_iff : (x y : K) → (beq x y ≡ true) ↔ (x ≡ y)

pub beq_refl {κ} : {K : Type κ} ⦃k : Keyed K⦄ (x : K) → k.beq x x ≡ true
beq_refl ⦃k⦄ x = (k.beq_iff x x).1 refl

infix 50 ◌==◌
abbrev pub ◌==◌ {κ} : {K : Type κ} ⦃k : Keyed K⦄ → K → K → Bool
◌==◌ ⦃k⦄ = k.beq

pub nat_beq_iff : (a b : ℕ) → (nat_beq a b ≡ true) ↔ (a ≡ b)
nat_beq_iff a b = ground arith

instance abbrev pub nat_eq : Keyed ℕ
nat_eq = record { beq = nat_beq; beq_iff = nat_beq_iff }

instance abbrev pub string_eq : Keyed String
string_eq = record { beq = str_eq; beq_iff = eq_iff }

module _ {ℓ κ} {A : Type ℓ} {B : Type κ} ⦃e : Keyed A⦄ ⦃f : Keyed B⦄ where
  abbrev pub pair_beq : A × B → A × B → Bool
  pair_beq p q = e.beq p.0 q.0 && f.beq p.1 q.1

  pub pair_beq_iff : (p q : A × B) → (pair_beq p q ≡ true) ↔ (p ≡ q)
  pair_beq_iff p q = (
    λ h.
        let (l, r) = and_true (e.beq p.0 q.0) (f.beq p.1 q.1) h in
        ap₂ (λ a b. (a, b)) ((e.beq_iff p.0 q.0).0 l) ((f.beq_iff p.1 q.1).0 r),
    λ h. ground (arith, (e.beq_iff p.0 q.0).1, (f.beq_iff p.1 q.1).1),
  )

  instance abbrev pub pair_eq : Keyed (A × B)
  pair_eq = record { beq = pair_beq; beq_iff = pair_beq_iff }

abbrev pub text_beq : List ℕ → List ℕ → Bool
text_beq [] [] = true
text_beq [] (y ∷ ys) = false
text_beq (x ∷ xs) [] = false
text_beq (x ∷ xs) (y ∷ ys) = nat_beq x y && text_beq xs ys

pub text_beq_iff : (a b : List ℕ) → (text_beq a b ≡ true) ↔ (a ≡ b)
text_beq_iff [] [] = (λ _. refl, λ _. refl)
text_beq_iff [] (y ∷ ys) = (λ h. cc, λ h. cc)
text_beq_iff (x ∷ xs) [] = (λ h. cc, λ h. cc)
text_beq_iff (x ∷ xs) (y ∷ ys) =
    let ih = text_beq_iff xs ys in (λ h. ground (arith, ih.0), λ h. ground (arith, ih.1))

instance abbrev pub text_eq : Keyed (List ℕ)
text_eq = record { beq = text_beq; beq_iff = text_beq_iff }
