-- ===== src/Rto/Bounds.antt =====
-- What rto_get makes of a measured time.
use reliable_udp.Base.{
  abs_int, arith, int_of, neg_part, pos, quot_ℤ, suc, times_ℤ, zero, ℕ, ℤ, ◌*◌, ◌+ℤ◌, ◌+◌, ◌-ℤ◌,
  ◌/◌, ◌<ℤ◌, ◌<◌, ◌≡◌, ◌≤◌, ◌^◌,
}
use reliable_udp.Rto.{Eighths, estimate, micros, rto_get, round_float, to_float}
use reliable_udp.Rto.Floats.{
  round_float-le, to_float-low, to_float-pos, to_float-positive, to_float-small,
}

micros-pos : (k : ℕ) → micros (pos k) ≡ pos (k * 8)
unfolding micros times_ℤ
micros-pos k = ground arith

magnitude_lem : (n : ℕ) → n < 17179869184 → micros (abs_int (int_of (pos n))) ≡ pos (n / 8 * 8)
unfolding abs_int int_of quot_ℤ micros times_ℤ
magnitude_lem n h = ground arith

error_lem : (k : ℕ) → micros (pos k) -ℤ pos 0 ≡ pos (8 * k)
unfolding micros times_ℤ ◌-ℤ◌
error_lem k = ground arith

float_of : (k : ℕ) → k < 16777216 → to_float (pos k) ≡ pos k
float_of k h = to_float-small (pos k) h (omega arith)

eighth_lem : (n : ℕ) → pos 0 +ℤ quot_ℤ (pos n) 8 ≡ pos (n / 8)
unfolding ◌+ℤ◌ quot_ℤ
eighth_lem n = ground arith

deviation_lem : (k : ℕ) → pos 24000 +ℤ quot_ℤ (pos (8 * k) -ℤ pos 24000) 4 ≡ pos (18000 + 2 * k)
unfolding ◌+ℤ◌ ◌-ℤ◌ quot_ℤ
deviation_lem k = ground arith

sum_lem : (k : ℕ) → pos k +ℤ times_ℤ (pos (18000 + 2 * k)) 4 ≡ pos (72000 + 9 * k)
unfolding ◌+ℤ◌ times_ℤ
sum_lem k = ground arith

difference-small :
    (k : ℕ) → 8 * k < 16777216 → to_float (pos (8 * k) -ℤ pos 24000) ≡ pos (8 * k) -ℤ pos 24000
unfolding ◌-ℤ◌
difference-small k h = to_float-small _ (ground arith) (ground arith)

-- From packet 2 on, for a measurement with which no float is rounded.
estimate_lem : (k : ℕ) → 72000 + 9 * k < 16777216 → estimate (pos k) ≡ pos (72000 + 9 * k)
unfolding estimate
estimate_lem k h =
    let whole : 8 * k / 8 * 8 ≡ 8 * k = omega arith in
    let eighth : 8 * k / 8 ≡ k = omega arith in
    rw
      (
        error_lem k,
        float_of (8 * k) (omega arith),
        magnitude_lem (8 * k) (omega arith),
        whole,
        float_of (8 * k) (omega arith),
        difference-small k (omega arith),
        deviation_lem k,
        float_of (18000 + 2 * k) (omega arith),
        eighth_lem (8 * k),
        eighth,
        float_of k (omega arith),
        sum_lem k,
      )
      (float_of (72000 + 9 * k) h)

-- Whatever is rounded, the deviation stays positive.
quarter-positive : (x : ℤ) → neg_part x ≤ 24000 → pos 0 <ℤ pos 24000 +ℤ quot_ℤ x 4
unfolding ◌+ℤ◌ quot_ℤ
quarter-positive x h = ground arith

difference-low : (n : ℕ) → neg_part (pos n -ℤ pos 24000) ≤ 24000
unfolding ◌-ℤ◌
difference-low n = ground arith

deviation-positive :
    (n : ℕ) → pos 0 <ℤ to_float (pos 24000 +ℤ quot_ℤ (to_float (pos n -ℤ pos 24000)) 4)
deviation-positive n = to_float-positive (pos 24000 +ℤ quot_ℤ (to_float (pos n -ℤ pos 24000)) 4) (
    quarter-positive (to_float (pos n -ℤ pos 24000)) (
      omega (
        arith,
        difference-low n,
        to_float-low (pos n -ℤ pos 24000) (omega (arith, difference-low n)),
      )))

sum-positive : (k : ℕ) (d : ℤ) → pos 0 <ℤ d → pos 0 <ℤ pos k +ℤ times_ℤ d 4
unfolding ◌+ℤ◌ times_ℤ
sum-positive k d h = ground arith

-- With a measurement below 2 ^ 30 the estimate is positive, whatever is rounded.
estimate-positive : (k : ℕ) → k < 1073741824 → pos 0 <ℤ estimate (pos k)
unfolding estimate
estimate-positive k h =
    let n = round_float (8 * k) in
    let deviation = round_float (n / 8 * 8) in
    rw
      (
        error_lem k,
        to_float-pos (8 * k),
        magnitude_lem n (omega (arith, round_float-le (8 * k))),
        to_float-pos (n / 8 * 8),
        eighth_lem n,
        to_float-pos (n / 8),
      )
      (to_float-positive _ (sum-positive (round_float (n / 8)) _ (deviation-positive deviation)))

-- From packet 2 on, for a measurement of at most 1.85 seconds, with which no float is rounded, the
-- time is 9000 microseconds and nine eighths of the measurement: the earlier estimate, which the
-- global `rto` holds, has no part in it.
pub rto_get-forgets :
    (rto : Eighths) (k n : ℕ)
    → 72000 + 9 * k < 16777216
    → rto_get rto (pos k) (suc (suc n)) ≡ pos (72000 + 9 * k)
unfolding rto_get
rto_get-forgets rto k n h = estimate_lem k h

-- With a positive `rto` and a measurement from 0 up and below 2 ^ 30 microseconds the time is
-- positive for every packet, so that the timer process takes the message for the start of a timer.
pub rto_get-positive :
    (rto : Eighths) (k n : ℕ) → k < 2 ^ 30 → pos 0 <ℤ rto → pos 0 <ℤ rto_get rto (pos k) n
unfolding rto_get
rto_get-positive rto k zero small h = h
rto_get-positive rto k (suc zero) small h = rw (micros-pos k) (ground arith)
rto_get-positive rto k (suc (suc n)) small h = estimate-positive k (omega arith)
