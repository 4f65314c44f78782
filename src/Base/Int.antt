-- ===== src/Base/Int.antt =====
-- Signed integers over the native numbers. A 64-bit signed value of the program is the integer
-- that it stands for.
use Prim.Native.Nat.{ℕ, suc, ◌+◌, ◌-◌, ◌*◌, ◌≤◌, ◌<◌}
use mathlib.Core.Path.{◌≡◌, refl, ap}
use mathlib.Core.Logic.{◌⊎◌, ◌≢◌}
use mathlib.Core.Bool.{Bool, true, false}
use native.Mathlib.Omega.{arith}
use exchange_cpp.Base.Tests.{ltb, leb, ◌==◌, if◌then◌else◌}

-- `negsuc n` is -(n + 1).
pub data ℤ : Type 0 where
  pos : ℕ → ℤ
  negsuc : ℕ → ℤ

-- The greatest value of an `int64_t`.
abbrev pub int64_max : ℤ
int64_max = pos 9223372036854775807

abbrev pub pos_part : ℤ → ℕ
pos_part (pos n) = n
pos_part (negsuc n) = 0

abbrev pub neg_part : ℤ → ℕ
neg_part (pos n) = 0
neg_part (negsuc n) = suc n

-- a - b, as an integer.
abbrev pub sub_ℕ : ℕ → ℕ → ℤ
sub_ℕ a b = if leb b a then pos (a - b) else negsuc (b - a - 1)

infixl 65 ◌+ℤ◌ ◌-ℤ◌
infixl 70 ◌*ℤ◌
infix 50 ◌≤ℤ◌ ◌<ℤ◌ ◌==ℤ◌
unfoldable pub ◌+ℤ◌ : ℤ → ℤ → ℤ
a +ℤ b = sub_ℕ (pos_part a + pos_part b) (neg_part a + neg_part b)

unfoldable pub ◌-ℤ◌ : ℤ → ℤ → ℤ
a -ℤ b = sub_ℕ (pos_part a + neg_part b) (neg_part a + pos_part b)

unfoldable pub ◌*ℤ◌ : ℤ → ℤ → ℤ
a *ℤ b =
    sub_ℕ (pos_part a * pos_part b + neg_part a * neg_part b)
      (pos_part a * neg_part b + neg_part a * pos_part b)

abbrev pub ◌≤ℤ◌ : ℤ → ℤ → Type 0
a ≤ℤ b = pos_part a + neg_part b ≤ pos_part b + neg_part a

abbrev pub ◌<ℤ◌ : ℤ → ℤ → Type 0
a <ℤ b = pos_part a + neg_part b < pos_part b + neg_part a

abbrev pub ltb_ℤ : ℤ → ℤ → Bool
ltb_ℤ a b = ltb (pos_part a + neg_part b) (pos_part b + neg_part a)

abbrev pub leb_ℤ : ℤ → ℤ → Bool
leb_ℤ a b = leb (pos_part a + neg_part b) (pos_part b + neg_part a)

abbrev pub ◌==ℤ◌ : ℤ → ℤ → Bool
a ==ℤ b = (pos_part a + neg_part b) == (pos_part b + neg_part a)

unfoldable pub min_ℤ : ℤ → ℤ → ℤ
min_ℤ a b = if ltb_ℤ b a then b else a

unfoldable pub max_ℤ : ℤ → ℤ → ℤ
max_ℤ a b = if ltb_ℤ a b then b else a

-- One lemma for each operation lets `omega` work with the operations shut, at any depth.
pub +ℤ_parts :
    (a b : ℤ)
    → pos_part (a +ℤ b) + neg_part a + neg_part b ≡ neg_part (a +ℤ b) + pos_part a + pos_part b
unfolding ◌+ℤ◌
+ℤ_parts a b = ground arith

pub -ℤ_parts :
    (a b : ℤ)
    → pos_part (a -ℤ b) + neg_part a + pos_part b ≡ neg_part (a -ℤ b) + pos_part a + neg_part b
unfolding ◌-ℤ◌
-ℤ_parts a b = ground arith

pub *ℤ_parts :
    (a b : ℤ)
    → pos_part (a *ℤ b) + (pos_part a * neg_part b + neg_part a * pos_part b)
      ≡ neg_part (a *ℤ b) + (pos_part a * pos_part b + neg_part a * neg_part b)
unfolding ◌*ℤ◌
*ℤ_parts a b = ground arith

pub eq_of_parts : (a b : ℤ) → pos_part a + neg_part b ≡ pos_part b + neg_part a → a ≡ b
eq_of_parts a b h = ground arith

pub ==ℤ_ne : (a b : ℤ) → (a ==ℤ b) ≡ false → (pos_part a + neg_part b ≢ pos_part b + neg_part a)
==ℤ_ne a b h = ground arith

pub ==ℤ_of_eq : (a b : ℤ) → a ≡ b → (a ==ℤ b) ≡ true
==ℤ_of_eq a b h = ground arith

pub ltb_ℤ→lt : (a b : ℤ) → ltb_ℤ a b ≡ true → a <ℤ b
ltb_ℤ→lt a b h = ground arith

pub ltb_ℤ_of_lt : (a b : ℤ) → a <ℤ b → ltb_ℤ a b ≡ true
ltb_ℤ_of_lt a b h = ground arith

pub leb_of_ltb_ℤ : (a b : ℤ) → ltb_ℤ a b ≡ false → b ≤ℤ a
leb_of_ltb_ℤ a b h = ground arith

pub ltb_of_le_ℤ : (a b : ℤ) → b ≤ℤ a → ltb_ℤ a b ≡ false
ltb_of_le_ℤ a b h = ground arith

pub leb_ℤ→le : (a b : ℤ) → leb_ℤ a b ≡ true → a ≤ℤ b
leb_ℤ→le a b h = ground arith

pub ltb_of_leb_ℤ : (a b : ℤ) → leb_ℤ a b ≡ false → b <ℤ a
ltb_of_leb_ℤ a b h = ground arith

pub ==ℤ_eq : (a b : ℤ) → (a ==ℤ b) ≡ true → a ≡ b
==ℤ_eq a b h = ground arith

-- An equation of integers, as `omega` reads it.
pub parts : {a b : ℤ} → a ≡ b → pos_part a + neg_part b ≡ pos_part b + neg_part a
parts {a} e = rw (← e) refl

pub ruleset int_laws = (arith, +ℤ_parts, -ℤ_parts, eq_of_parts)

pub min_ℤ_parts :
    (a b : ℤ)
    → ((pos_part (min_ℤ a b) + neg_part a ≡ pos_part a + neg_part (min_ℤ a b)) × (a ≤ℤ b))
      ⊎ ((pos_part (min_ℤ a b) + neg_part b ≡ pos_part b + neg_part (min_ℤ a b)) × (b <ℤ a))
unfolding min_ℤ
min_ℤ_parts a b = ground arith

pub ruleset min_laws = (arith, +ℤ_parts, -ℤ_parts, eq_of_parts, min_ℤ_parts)

-- The ring laws of products.
pub *ℤ_comm : (a b : ℤ) → a *ℤ b ≡ b *ℤ a
unfolding ◌*ℤ◌
*ℤ_comm a b = eq_of_parts (a *ℤ b) (b *ℤ a) (omega (arith, *ℤ_parts a b, *ℤ_parts b a))

-- An equation of numbers, times a number.
scale : {x y : ℕ} (k : ℕ) → x ≡ y → k * x ≡ k * y
scale k e = ap (λ t. k * t) e

pub *ℤ-+ℤ : (a b c : ℤ) → a *ℤ (b +ℤ c) ≡ a *ℤ b +ℤ a *ℤ c
*ℤ-+ℤ a b c = eq_of_parts _ _ (
    omega (
      arith,
      *ℤ_parts a (b +ℤ c),
      *ℤ_parts a b,
      *ℤ_parts a c,
      +ℤ_parts (a *ℤ b) (a *ℤ c),
      scale (pos_part a) (+ℤ_parts b c),
      scale (neg_part a) (+ℤ_parts b c),
    ))

pub *ℤ--ℤ : (a b c : ℤ) → a *ℤ (b -ℤ c) ≡ a *ℤ b -ℤ a *ℤ c
*ℤ--ℤ a b c = eq_of_parts _ _ (
    omega (
      arith,
      *ℤ_parts a (b -ℤ c),
      *ℤ_parts a b,
      *ℤ_parts a c,
      -ℤ_parts (a *ℤ b) (a *ℤ c),
      scale (pos_part a) (-ℤ_parts b c),
      scale (neg_part a) (-ℤ_parts b c),
    ))

pub *ℤ_assoc : (a b c : ℤ) → a *ℤ b *ℤ c ≡ a *ℤ (b *ℤ c)
*ℤ_assoc a b c = eq_of_parts _ _ (
    omega (
      arith,
      *ℤ_parts (a *ℤ b) c,
      *ℤ_parts a (b *ℤ c),
      scale (pos_part c) (*ℤ_parts a b),
      scale (neg_part c) (*ℤ_parts a b),
      scale (pos_part a) (*ℤ_parts b c),
      scale (neg_part a) (*ℤ_parts b c),
    ))

-- A product distributes over the sum on its left too.
pub +ℤ-*ℤ : (a b c : ℤ) → (a +ℤ b) *ℤ c ≡ a *ℤ c +ℤ b *ℤ c
+ℤ-*ℤ a b c = rw (*ℤ_comm (a +ℤ b) c, *ℤ-+ℤ c a b, *ℤ_comm c a, *ℤ_comm c b)

pub -ℤ-*ℤ : (a b c : ℤ) → (a -ℤ b) *ℤ c ≡ a *ℤ c -ℤ b *ℤ c
-ℤ-*ℤ a b c = rw (*ℤ_comm (a -ℤ b) c, *ℤ--ℤ c a b, *ℤ_comm c a, *ℤ_comm c b)

pub *ℤ-zero : (a : ℤ) → a *ℤ pos 0 ≡ pos 0
*ℤ-zero a = eq_of_parts _ _ (omega (arith, *ℤ_parts a (pos 0)))

pub *ℤ_nonneg : (a b : ℤ) → pos 0 ≤ℤ a → pos 0 ≤ℤ b → pos 0 ≤ℤ a *ℤ b
unfolding ◌*ℤ◌
*ℤ_nonneg a b h k = ground arith

pub *ℤ_one : (a : ℤ) → a *ℤ pos 1 ≡ a
*ℤ_one a = eq_of_parts _ _ (omega (arith, *ℤ_parts a (pos 1)))

pub *ℤ_minus_one : (a : ℤ) → a *ℤ negsuc 0 ≡ pos 0 -ℤ a
*ℤ_minus_one a = eq_of_parts _ _ (omega (arith, *ℤ_parts a (negsuc 0), -ℤ_parts (pos 0) a))
