-- ===== src/Common/Eq.antt =====
-- Tests of equality as instances, and texts as lists of code points.
use Prim.Native.Char.{code}
use Prim.Native.String.{String}
use qoderwork2api.Common.{
  ℕ, ◌≡◌, ◌↔◌, Bool, true, false, ◌&&◌, List, [], ◌∷◌, arith, nat_eq, nat_eq_iff,
}
use qoderwork2api.Common.Int.{ℤ, pos, negsuc}

pub record Eq {κ} (K : Type κ) : Type κ where
  pub agrees : (x y : K) → Bool
  pub agrees_iff : (x y : K) → (agrees x y ≡ true) ↔ (x ≡ y)

infix 50 ◌==◌
-- The operator of the program for every type with such a test.
abbrev pub ◌==◌ {κ} : {K : Type κ} ⦃test : Eq K⦄ → K → K → Bool
◌==◌ ⦃test⦄ = test.agrees

-- A Go string, as the list of its code points; a text that is no valid UTF-8 has no model.
abbrev pub Text : Type 0
Text = List ℕ

-- The code points of a literal.
abbrev pub codes : String → Text
codes String.[] = []
codes (String.◌∷◌ c s) = code c ∷ codes s

unfoldable pub text_eq : Text → Text → Bool
text_eq [] [] = true
text_eq [] (y ∷ ys) = false
text_eq (x ∷ xs) [] = false
text_eq (x ∷ xs) (y ∷ ys) = nat_eq x y && text_eq xs ys

pub text_eq_iff : (a b : Text) → (text_eq a b ≡ true) ↔ (a ≡ b)
unfolding text_eq
text_eq_iff [] [] = ground arith
text_eq_iff [] (y ∷ ys) = ground arith
text_eq_iff (x ∷ xs) [] = ground arith
text_eq_iff (x ∷ xs) (y ∷ ys) = ground (arith, text_eq_iff xs ys)

instance abbrev pub nat_instance : Eq ℕ
nat_instance = record { agrees = nat_eq; agrees_iff = nat_eq_iff }

instance abbrev pub text_instance : Eq Text
text_instance = record { agrees = text_eq; agrees_iff = text_eq_iff }

abbrev pub is_empty : {A : Type 0} → List A → Bool
is_empty [] = true
is_empty (x ∷ xs) = false

pub int_eq : ℤ → ℤ → Bool
int_eq (pos a) (pos b) = nat_eq a b
int_eq (negsuc a) (negsuc b) = nat_eq a b
int_eq (pos a) (negsuc b) = false
int_eq (negsuc a) (pos b) = false

pub int_eq_iff : (x y : ℤ) → (int_eq x y ≡ true) ↔ (x ≡ y)
unfolding int_eq
int_eq_iff (pos a) (pos b) = ground arith
int_eq_iff (negsuc a) (negsuc b) = ground arith
int_eq_iff (pos a) (negsuc b) = ground arith
int_eq_iff (negsuc a) (pos b) = ground arith

instance abbrev pub int_instance : Eq ℤ
int_instance = record { agrees = int_eq; agrees_iff = int_eq_iff }
