-- ===== src/Rto/Floats.antt =====
-- The rounding of floats: what has 24 bits is kept, and the sign too.
use native.Mathlib.Nat.{div-mul-le_self, le-div_iff_mul-le, mul-pos}
use reliable_udp.Base.{
  arith, neg_part, negsuc, pos, pos_part, refl, suc, zero, ℕ, ℤ, ◌%◌, ◌*◌, ◌+◌, ◌/◌, ◌<ℤ◌, ◌<◌, ◌≡◌,
  ◌≤◌,
}
use reliable_udp.Rto.{float_unit, round_at, round_float, to_float}

float_unit-pos : (fuel n : ℕ) → 0 < float_unit fuel n
unfolding float_unit
float_unit-pos zero n = omega arith
float_unit-pos (suc fuel) n = ground (arith, float_unit-pos fuel (n / 2))

float_unit-le : (fuel n : ℕ) → 0 < n → float_unit fuel n ≤ n
unfolding float_unit
float_unit-le zero n h = h
float_unit-le (suc fuel) n h = ground (arith, float_unit-le fuel (n / 2))

quotient-pos : (n : ℕ) → 0 < n → 0 < n / float_unit 64 n
quotient-pos n h =
    (le-div_iff_mul-le {k = float_unit 64 n} {x = 1} {y = n} (float_unit-pos 64 n)).1
      (omega (arith, float_unit-le 64 n h))

float_unit-small : (fuel n : ℕ) → n < 16777216 → float_unit fuel n ≡ 1
unfolding float_unit
float_unit-small zero n h = refl
float_unit-small (suc fuel) n h = ground arith

round_at-le : (u q r : ℕ) → round_at u q r ≤ q * u + u
unfolding round_at
round_at-le u q r = ground arith

round_at-ge : (u q r : ℕ) → q * u ≤ round_at u q r
unfolding round_at
round_at-ge u q r = ground arith

round_at-whole : (q : ℕ) → round_at 1 q 0 ≡ q
unfolding round_at
round_at-whole q = ground arith

-- Numbers of 24 bits are floats.
pub round_float-small : (n : ℕ) → n < 16777216 → round_float n ≡ n
unfolding round_float
round_float-small n h =
    let over : n / 1 ≡ n = omega arith in
    let rest : n % 1 ≡ 0 = omega arith in
    rw (float_unit-small 64 n h, over, rest) (round_at-whole n)

-- A float is at least one last place, and at most twice what it stands for.
pub round_float-positive : (n : ℕ) → 0 < n → 0 < round_float n
unfolding round_float
round_float-positive n h =
    let u = float_unit 64 n in
    let q = n / u in
    omega (arith, mul-pos (quotient-pos n h) (float_unit-pos 64 n), round_at-ge u q (n % u))

pub round_float-le : (n : ℕ) → round_float n ≤ 2 * n
unfolding round_float
round_float-le zero = rw (round_float-small 0 (omega arith)) (omega arith)
round_float-le (suc n) =
    let u = float_unit 64 (suc n) in
    omega (
      arith,
      float_unit-le 64 (suc n) (omega arith),
      div-mul-le_self (suc n) u,
      round_at-le u (suc n / u) (suc n % u),
    )

-- Numbers of eighths that are floats.
pub to_float-small : (t : ℤ) → pos_part t < 16777216 → neg_part t < 16777216 → to_float t ≡ t
unfolding to_float
to_float-small t p n =
    rw (round_float-small (pos_part t) p, round_float-small (neg_part t) n) (ground arith)

pub to_float-pos : (n : ℕ) → to_float (pos n) ≡ pos (round_float n)
unfolding to_float
to_float-pos n = rw (round_float-small 0 (omega arith)) (ground arith)

pub to_float-positive : (t : ℤ) → pos 0 <ℤ t → pos 0 <ℤ to_float t
to_float-positive (pos n) h =
    rw (to_float-pos n) (omega (arith, round_float-positive n (omega arith)))
to_float-positive (negsuc n) h = absurd (omega arith)

-- A number that is not far below zero stays so.
pub to_float-low : (t : ℤ) → neg_part t < 16777216 → neg_part (to_float t) ≤ neg_part t
to_float-low (pos n) h = rw (to_float-pos n) (omega arith)
to_float-low (negsuc n) h = rw (to_float-small (negsuc n) (omega arith) h) (omega arith)
