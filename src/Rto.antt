-- ===== src/Rto.antt =====
-- The retransmission time of tcpd_def.h, in eighths of a microsecond (as in Timer). Each
-- float operation is rounded to 24 bits; doubles are exact here. A measured time is a whole number of microseconds.
pub mod Floats
pub mod Bounds
mod Tests
use reliable_udp.Base.{
  abs_int, int_of, leb, ltb, neg_part, not, pos_part, sub_ℕ, ◌&&◌, ◌||◌, ◌/◌, ◌%◌, abs_ℤ,
  if◌then◌else◌, pos, quot_ℤ, suc, times_ℤ, zero, ℕ, ℤ, ◌*◌, ◌+ℤ◌, ◌+◌, ◌-ℤ◌, ◌==◌,
}

abbrev pub Eighths : Type 0
Eighths = ℤ

-- `double rto = 6000;`
abbrev pub initial_rto : Eighths
initial_rto = pos 48000

-- `struct timeval`, and `timeval_diff` of the end and the start.
pub record Timeval : Type 0 where
  pub sec : ℕ
  pub usec : ℕ

unfoldable pub timeval_diff : Timeval → Timeval → ℤ
timeval_diff end_time start_time =
    pos (end_time.sec * 1000000 + end_time.usec) -ℤ pos (start_time.sec * 1000000 + start_time.usec)

-- Eighths from microseconds.
unfoldable pub micros : ℤ → Eighths
micros m = times_ℤ m 8

-- A float's last place, in eighths, for a number of eighths below 2 ^ 88: 24 bits are kept.
unfoldable pub float_unit : ℕ → ℕ → ℕ
float_unit zero n = 1
float_unit (suc fuel) n = let u = float_unit fuel (n / 2) in if ltb n 16777216 then 1 else 2 * u

-- `q` places of size `u` and a rest: to the nearest float, and to the even one of two.
unfoldable pub round_at : ℕ → ℕ → ℕ → ℕ
round_at u q r = if ltb u (2 * r) || (u == 2 * r && not (q % 2 == 0)) then q * u + u else q * u

unfoldable pub round_float : ℕ → ℕ
round_float n = let u = float_unit 64 n in round_at u (n / u) (n % u)

unfoldable pub to_float : Eighths → Eighths
to_float t = sub_ℕ (round_float (pos_part t)) (round_float (neg_part t))

-- The estimator for packets from 2 on. `a` and `d` are locals, 0 and 3000 at every call; `g` is an
-- eighth and `h` a quarter, by which floats are multiplied exactly, and `abs` takes its argument
-- to an int.
unfoldable pub estimate : ℤ → Eighths
estimate m =
    let a = pos 0 in
    let d = pos 24000 in
    let err = to_float (micros m -ℤ a) in
    let a' = to_float (a +ℤ quot_ℤ err 8) in
    let magnitude = to_float (micros (abs_int (int_of err))) in
    let d' = to_float (d +ℤ quot_ℤ (to_float (magnitude -ℤ d)) 4) in to_float (a' +ℤ times_ℤ d' 4)

-- `rto_get`, with the global `rto` as it was: the result is its new value too.
unfoldable pub rto_get : Eighths → ℤ → ℕ → Eighths
rto_get rto m zero = rto
rto_get rto m (suc zero) = if abs_ℤ m == 0 then pos 48000 else micros m
rto_get rto m (suc (suc n)) = estimate m
