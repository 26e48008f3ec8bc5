-- ===== src/Base/Tests.antt =====
-- Boolean tests on numbers, and equality tests by instance.
use Prim.Native.Nat.{ℕ, ◌<◌, compare, Ordering}
use mathlib.Core.Path.{◌≡◌, refl, ap}
use mathlib.Core.Logic.{◌↔◌, ◌⊎◌, inl, inr}
use mathlib.Core.Bool.{Bool, true, false, ◌&&◌}
use mathlib.Core.List.{List, [], ◌∷◌}
use native.Mathlib.Omega.{arith}

abbrev pub ltb : ℕ → ℕ → Bool
ltb a b = elim (compare a b) [ Ordering.lt ↦ true | _ ↦ false ]

abbrev pub leb : ℕ → ℕ → Bool
leb a b = elim (compare a b) [ Ordering.gt ↦ false | _ ↦ true ]

abbrev pub nat_beq : ℕ → ℕ → Bool
nat_beq a b = elim (compare a b) [ Ordering.eq ↦ true | _ ↦ false ]

infix 1 if◌then◌else◌
abbrev pub if◌then◌else◌ {ℓ} : {A : Type ℓ} → Bool → A → A → A
if true then x else y = x
if false then x else y = y

pub ltb→lt : (a b : ℕ) → ltb a b ≡ true → a < b
ltb→lt a b h = ground arith

pub lt→ltb : (a b : ℕ) → a < b → ltb a b ≡ true
lt→ltb a b h = ground arith

pub Bool-cases : (b : Bool) → (b ≡ true) ⊎ (b ≡ false)
Bool-cases true = inl refl
Bool-cases false = inr refl

pub nat_beq_iff : (a b : ℕ) → (nat_beq a b ≡ true) ↔ (a ≡ b)
nat_beq_iff a b = (λ h. ground arith, λ h. ground arith)

-- A type whose values a program compares for equality.
pub record Comparable {ℓ} (K : Type ℓ) : Type ℓ where
  pub same : K → K → Bool
  pub same_iff : (one two : K) → (same one two ≡ true) ↔ (one ≡ two)

module _ {ℓ} {K : Type ℓ} ⦃keys : Comparable K⦄ where
  infix 50 ◌==◌ ◌!=◌
  abbrev pub ◌==◌ : K → K → Bool
  one == two = keys.same one two

  abbrev pub ◌!=◌ : K → K → Bool
  one != two = if one == two then false else true

instance abbrev pub nat_same : Comparable ℕ
nat_same = record { same = nat_beq; same_iff = nat_beq_iff }

-- A string of bytes, each a number below 256.
abbrev pub Bytes : Type 0
Bytes = List ℕ

unfoldable pub bytes_beq : Bytes → Bytes → Bool
bytes_beq [] [] = true
bytes_beq (x ∷ xs) (y ∷ ys) = nat_beq x y && bytes_beq xs ys
bytes_beq _ _ = false

bytes_eq_of_beq : (xs ys : Bytes) → bytes_beq xs ys ≡ true → xs ≡ ys
unfolding bytes_beq
bytes_eq_of_beq [] [] h = refl
bytes_eq_of_beq [] (y ∷ ys) h = cc
bytes_eq_of_beq (x ∷ xs) [] h = cc
bytes_eq_of_beq (x ∷ xs) (y ∷ ys) h = ground (arith, bytes_eq_of_beq xs ys)

bytes_beq_self : (xs : Bytes) → bytes_beq xs xs ≡ true
unfolding bytes_beq
bytes_beq_self [] = refl
bytes_beq_self (x ∷ xs) = ground (arith, bytes_beq_self xs)

pub bytes_beq_iff : (xs ys : Bytes) → (bytes_beq xs ys ≡ true) ↔ (xs ≡ ys)
bytes_beq_iff xs ys = (bytes_eq_of_beq xs ys, λ e. rw e (bytes_beq_self ys))

instance abbrev pub bytes_same : Comparable Bytes
bytes_same = record { same = bytes_beq; same_iff = bytes_beq_iff }

pub bytes_eq_refl : (xs : Bytes) → bytes_beq xs xs ≡ true
bytes_eq_refl xs = bytes_beq_self xs

pub pair_iff :
    {A B : Type 0} (x : Comparable A) (y : Comparable B) (one two : A × B)
    → (x.same one.0 two.0 && y.same one.1 two.1 ≡ true) ↔ (one ≡ two)
pair_iff x y (a, b) (c, d) = (
  λ h. ground (arith, x.same_iff a c, y.same_iff b d),
  λ h. ground (arith, ap (λ p. p.0) h, ap (λ p. p.1) h, x.same_iff a c, y.same_iff b d),
)

-- The derived equality of a pair.
instance abbrev pub pair_same :
    {A B : Type 0} → ⦃x : Comparable A⦄ → ⦃y : Comparable B⦄ → Comparable (A × B)
pair_same ⦃x⦄ ⦃y⦄ = record {
  same = λ one two. x.same one.0 two.0 && y.same one.1 two.1;
  same_iff = λ one two. pair_iff x y one two;
}
