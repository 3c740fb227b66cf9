-- ===== src/Base/Equality.antt =====
-- Equality tests as an interface, with instances for numbers, texts and pointers.
use Prim.Native.Nat.{ℕ}
use Prim.Native.String.{String}
use mathlib.Core.Path.{◌≡◌, refl}
use mathlib.Core.Logic.{◌↔◌}
use mathlib.Core.Bool.{Bool, true, false, ◌&&◌}
use mathlib.Core.Option.{Option, none, some}
use mathlib.Core.List.{List, [], ◌∷◌}
use native.Mathlib.Omega.{arith}
use text.Mathlib.Text.{◌==◌ as str_eq}
use text.Mathlib.TextEquality.{eq_iff}
use open_blog.Base.Tests.{nat_beq, nat_beq_iff}

pub record HasEq {ℓ} (T : Type ℓ) : Type ℓ where
  pub test : T → T → Bool
  pub test_iff : (x y : T) → (test x y ≡ true) ↔ (x ≡ y)

infix 50 ◌==◌
abbrev pub ◌==◌ {ℓ} : {T : Type ℓ} ⦃h : HasEq T⦄ (x y : T) → Bool
◌==◌ ⦃h⦄ x y = h.test x y

-- A text that the program walks: its code points, or its bytes where it is ASCII.
abbrev pub Text : Type 0
Text = List ℕ

unfoldable pub text_eq : Text → Text → Bool
text_eq [] [] = true
text_eq (a ∷ s) (b ∷ t) = nat_beq a b && text_eq s t
text_eq _ _ = false

pub text_eq_iff : (s t : Text) → (text_eq s t ≡ true) ↔ (s ≡ t)
unfolding text_eq
text_eq_iff [] [] = ((λ _. refl), λ _. refl)
text_eq_iff (a ∷ s) (b ∷ t) = ground (arith, text_eq_iff s t)
text_eq_iff [] (b ∷ t) = ground arith
text_eq_iff (a ∷ s) [] = ground arith

unfoldable pub option_eq : Option ℕ → Option ℕ → Bool
option_eq none none = true
option_eq (some a) (some b) = nat_beq a b
option_eq _ _ = false

pub option_eq_iff : (s t : Option ℕ) → (option_eq s t ≡ true) ↔ (s ≡ t)
unfolding option_eq
option_eq_iff none none = ((λ _. refl), λ _. refl)
option_eq_iff (some a) (some b) = ground arith
option_eq_iff none (some b) = ground arith
option_eq_iff (some a) none = ground arith

instance abbrev pub nat_eq : HasEq ℕ
nat_eq = record { test = nat_beq; test_iff = nat_beq_iff }

instance abbrev pub string_eq : HasEq String
string_eq = record { test = str_eq; test_iff = eq_iff }

instance abbrev pub text_eq_instance : HasEq Text
text_eq_instance = record { test = text_eq; test_iff = text_eq_iff }

pub ==_refl {ℓ} : {A : Type ℓ} ⦃e : HasEq A⦄ (a : A) → (a == a) ≡ true
==_refl ⦃e⦄ a = (e.test_iff a a).1 refl
