-- ===== src/Base/Int.antt =====
-- Signed integers over the native numbers: the C `int` and amounts of money.
use Prim.Native.Nat.{ℕ, zero, suc, ◌+◌, ◌-◌, ◌*◌, ◌/◌, ◌≤◌, ◌<◌}
use mathlib.Core.Path.{◌≡◌, ap}
use mathlib.Core.Bool.{Bool}
use native.Mathlib.Omega.{arith}
use native.Mathlib.Nat.{div-eq_of_lt}
use rate_engine.Base.Tests.{ltb, leb, ◌==◌, if◌then◌else◌}

-- `negsuc n` is -(n + 1).
pub data ℤ : Type 0 where
  pos : ℕ → ℤ
  negsuc : ℕ → ℤ

abbrev pub pos_part : ℤ → ℕ
pos_part (pos n) = n
pos_part (negsuc n) = 0

abbrev pub neg_part : ℤ → ℕ
neg_part (pos n) = 0
neg_part (negsuc n) = suc n

-- a - b, as an integer.
abbrev pub sub_ℕ : ℕ → ℕ → ℤ
sub_ℕ a b = if leb b a then pos (a - b) else negsuc (b - a - 1)

infixl 65 ◌+ℤ◌ ◌-ℤ◌
infixl 70 ◌*ℤ◌
infix 50 ◌≤ℤ◌ ◌<ℤ◌ ◌==ℤ◌
unfoldable pub ◌+ℤ◌ : ℤ → ℤ → ℤ
a +ℤ b = sub_ℕ (pos_part a + pos_part b) (neg_part a + neg_part b)

unfoldable pub ◌-ℤ◌ : ℤ → ℤ → ℤ
a -ℤ b = sub_ℕ (pos_part a + neg_part b) (neg_part a + pos_part b)

-- An integer times a natural number, the only product that the code forms.
unfoldable pub ◌*ℤ◌ : ℤ → ℕ → ℤ
a *ℤ n = sub_ℕ (pos_part a * n) (neg_part a * n)

abbrev pub ◌≤ℤ◌ : ℤ → ℤ → Type 0
a ≤ℤ b = pos_part a + neg_part b ≤ pos_part b + neg_part a

abbrev pub ◌<ℤ◌ : ℤ → ℤ → Type 0
a <ℤ b = suc (pos_part a + neg_part b) ≤ pos_part b + neg_part a

abbrev pub ltb_ℤ : ℤ → ℤ → Bool
ltb_ℤ a b = ltb (pos_part a + neg_part b) (pos_part b + neg_part a)

abbrev pub leb_ℤ : ℤ → ℤ → Bool
leb_ℤ a b = leb (pos_part a + neg_part b) (pos_part b + neg_part a)

abbrev pub ◌==ℤ◌ : ℤ → ℤ → Bool
a ==ℤ b = (pos_part a + neg_part b) == (pos_part b + neg_part a)

-- `(-1) * a`.
abbrev pub neg : ℤ → ℤ
neg a = sub_ℕ (neg_part a) (pos_part a)

-- With one lemma for each operation `omega` works while the operations stay shut.
pub +ℤ_parts :
    (a b : ℤ)
    → pos_part (a +ℤ b) + neg_part a + neg_part b ≡ neg_part (a +ℤ b) + pos_part a + pos_part b
unfolding ◌+ℤ◌
+ℤ_parts a b = ground arith

pub -ℤ_parts :
    (a b : ℤ)
    → pos_part (a -ℤ b) + neg_part a + pos_part b ≡ neg_part (a -ℤ b) + pos_part a + neg_part b
unfolding ◌-ℤ◌
-ℤ_parts a b = ground arith

pub *ℤ_parts :
    (a : ℤ) (n : ℕ) → pos_part (a *ℤ n) + neg_part a * n ≡ neg_part (a *ℤ n) + pos_part a * n
unfolding ◌*ℤ◌
*ℤ_parts a n = ground arith

pub eq_of_parts : (a b : ℤ) → pos_part a + neg_part b ≡ pos_part b + neg_part a → a ≡ b
eq_of_parts a b h = ground arith

pub ruleset int_laws = (arith, +ℤ_parts, -ℤ_parts, *ℤ_parts, eq_of_parts)

-- `ceil(a / d)` for a positive block length `d`: the C cast of the quotient by 0 is undefined.
unfoldable pub ceil_div : ℤ → ℕ → ℤ
ceil_div (pos n) d = pos ((n + d - 1) / d)
ceil_div (negsuc n) d = sub_ℕ 0 (suc n / d)

-- `floor(a / d)`, likewise.
unfoldable pub floor_div : ℤ → ℕ → ℤ
floor_div (pos n) d = pos (n / d)
floor_div (negsuc n) d = sub_ℕ 0 ((suc n + d - 1) / d)

-- A negative remainder of less than one block begins no block.
pub ceil_div-spent : (x : ℤ) (d : ℕ) → x ≤ℤ pos 0 → neg_part x < d → ceil_div x d ≡ pos 0
unfolding ceil_div
ceil_div-spent (pos n) d h k = let e : (n + d - 1) / d ≡ 0 = div-eq_of_lt (omega arith) in ap pos e
ceil_div-spent (negsuc n) d h k = let e : suc n / d ≡ 0 = div-eq_of_lt k in rw e

pub +ℤ-pos : (c : ℤ) (a b : ℕ) → c +ℤ pos a +ℤ pos b ≡ c +ℤ pos (a + b)
unfolding ◌+ℤ◌
+ℤ-pos c a b = ground arith

pub -ℤ-pos : (c : ℤ) (a b : ℕ) → c -ℤ pos a -ℤ pos b ≡ c -ℤ pos (a + b)
unfolding ◌-ℤ◌
-ℤ-pos c a b = ground arith

pub pos-sub : (n a : ℕ) → a ≤ n → pos n -ℤ pos a ≡ pos (n - a)
unfolding ◌-ℤ◌
pos-sub n a h = ground arith

pub +ℤ-zero : (c : ℤ) → c +ℤ pos 0 ≡ c
unfolding ◌+ℤ◌
+ℤ-zero c = ground arith

pub -ℤ-zero : (c : ℤ) → c -ℤ pos 0 ≡ c
unfolding ◌-ℤ◌
-ℤ-zero c = ground arith

-- Negative seconds hold a negative number of whole blocks.
pub ceil_div-neg : (r d : ℕ) → 0 < d → ceil_div (neg (pos r)) d ≡ neg (pos (r / d))
unfolding ceil_div
ceil_div-neg zero d h =
    let e : (0 + d - 1) / d ≡ 0 = div-eq_of_lt (omega arith) in
    let f : 0 / d ≡ 0 = div-eq_of_lt (omega arith) in rw (e, f)
ceil_div-neg (suc r) d h = ground arith

pub neg-* : (k n : ℕ) → neg (pos k) *ℤ n ≡ neg (pos (k * n))
unfolding ◌*ℤ◌
neg-* zero n = ground arith
neg-* (suc k) n = ground arith

pub +ℤ-neg : (c : ℤ) (m : ℕ) → c +ℤ neg (pos m) ≡ c -ℤ pos m
unfolding ◌+ℤ◌ ◌-ℤ◌
+ℤ-neg c zero = ground arith
+ℤ-neg c (suc m) = ground arith
