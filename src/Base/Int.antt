-- ===== src/Base/Int.antt =====
-- Signed integers over the native numbers, with what the timer computes on them.
use Prim.Native.Nat.{ℕ, suc, ◌+◌, ◌-◌, ◌*◌, ◌/◌, ◌≤◌, ◌<◌}
use mathlib.Core.Path.{◌≡◌}
use mathlib.Core.Bool.{Bool, true, false, ◌&&◌}
use native.Mathlib.Omega.{arith}
use reliable_udp.Base.Tests.{ltb, leb, ◌==◌, if◌then◌else◌}

-- `negsuc n` is -(n + 1).
pub data ℤ : Type 0 where
  pos : ℕ → ℤ
  negsuc : ℕ → ℤ

abbrev pub pos_part : ℤ → ℕ
pos_part (pos n) = n
pos_part (negsuc n) = 0

abbrev pub neg_part : ℤ → ℕ
neg_part (pos n) = 0
neg_part (negsuc n) = suc n

-- a - b, as an integer.
abbrev pub sub_ℕ : ℕ → ℕ → ℤ
sub_ℕ a b = if leb b a then pos (a - b) else negsuc (b - a - 1)

infixl 65 ◌+ℤ◌ ◌-ℤ◌
infix 50 ◌≤ℤ◌ ◌<ℤ◌
unfoldable pub ◌+ℤ◌ : ℤ → ℤ → ℤ
a +ℤ b = sub_ℕ (pos_part a + pos_part b) (neg_part a + neg_part b)

unfoldable pub ◌-ℤ◌ : ℤ → ℤ → ℤ
a -ℤ b = sub_ℕ (pos_part a + neg_part b) (neg_part a + pos_part b)

abbrev pub ◌≤ℤ◌ : ℤ → ℤ → Type 0
a ≤ℤ b = pos_part a + neg_part b ≤ pos_part b + neg_part a

abbrev pub ◌<ℤ◌ : ℤ → ℤ → Type 0
a <ℤ b = pos_part a + neg_part b < pos_part b + neg_part a

abbrev pub ltb_ℤ : ℤ → ℤ → Bool
ltb_ℤ a b = ltb (pos_part a + neg_part b) (pos_part b + neg_part a)

abbrev pub leb_ℤ : ℤ → ℤ → Bool
leb_ℤ a b = leb (pos_part a + neg_part b) (pos_part b + neg_part a)

-- The absolute value of an integer.
abbrev pub abs_ℤ : ℤ → ℕ
abs_ℤ a = pos_part a + neg_part a

-- C's division of an integer by a positive number, towards zero.
unfoldable pub quot_ℤ : ℤ → ℕ → ℤ
quot_ℤ a k = sub_ℕ (pos_part a / k) (neg_part a / k)

unfoldable pub times_ℤ : ℤ → ℕ → ℤ
times_ℤ a k = sub_ℕ (pos_part a * k) (neg_part a * k)

-- What C makes of a double or float that is stored in an int, from its number of eighths. Where
-- the value does not fit C leaves the result undefined; it is then the one of x86, INT_MIN.
unfoldable pub int_of : ℤ → ℤ
int_of t =
    let q = quot_ℤ t 8 in
    if ltb (pos_part q) 2147483648 && leb (neg_part q) 2147483648 then q else negsuc 2147483647

-- `abs` of an int, which leaves INT_MIN as it is.
unfoldable pub abs_int : ℤ → ℤ
abs_int a = if abs_ℤ a == 2147483648 then negsuc 2147483647 else pos (abs_ℤ a)

-- One lemma for each operation lets `omega` work with the operations shut.
pub +ℤ_parts :
    (a b : ℤ)
    → pos_part (a +ℤ b) + neg_part a + neg_part b ≡ neg_part (a +ℤ b) + pos_part a + pos_part b
unfolding ◌+ℤ◌
+ℤ_parts a b = ground arith

pub -ℤ_parts :
    (a b : ℤ)
    → pos_part (a -ℤ b) + neg_part a + pos_part b ≡ neg_part (a -ℤ b) + pos_part a + neg_part b
unfolding ◌-ℤ◌
-ℤ_parts a b = ground arith

pub eq_of_parts : (a b : ℤ) → pos_part a + neg_part b ≡ pos_part b + neg_part a → a ≡ b
eq_of_parts a b h = ground arith

pub ltb_ℤ→lt : (a b : ℤ) → ltb_ℤ a b ≡ true → a <ℤ b
ltb_ℤ→lt a b h = ground arith

pub ltb_ℤ→ge : (a b : ℤ) → ltb_ℤ a b ≡ false → b ≤ℤ a
ltb_ℤ→ge a b h = ground arith

pub leb_ℤ→le : (a b : ℤ) → leb_ℤ a b ≡ true → a ≤ℤ b
leb_ℤ→le a b h = ground arith

pub leb_ℤ→gt : (a b : ℤ) → leb_ℤ a b ≡ false → b <ℤ a
leb_ℤ→gt a b h = ground arith

pub ruleset int_laws =
    (arith, +ℤ_parts, -ℤ_parts, eq_of_parts, ltb_ℤ→lt, ltb_ℤ→ge, leb_ℤ→le, leb_ℤ→gt)
