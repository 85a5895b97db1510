-- ===== src/Rto/Tests.antt =====
-- Measurements of 100 microseconds, of 3000001, which a float rounds, and of 2 ^ 31.
use reliable_udp.Base.{
  abs_int, arith, int_of, negsuc, pos, quot_ℤ, refl, times_ℤ, ◌*◌, ◌+ℤ◌, ◌+◌, ◌-◌, ◌-ℤ◌, ◌<ℤ◌, ◌≡◌,
}
use reliable_udp.Rto.Bounds.{rto_get-forgets, rto_get-positive}
use reliable_udp.Rto.{
  estimate, float_unit, initial_rto, micros, round_at, round_float, rto_get, to_float,
}

rounds : rto_get initial_rto (pos 3000001) 2 ≡ pos (8 * 3384001)
unfolding rto_get estimate to_float round_float round_at float_unit micros abs_int int_of quot_ℤ
    times_ℤ ◌+ℤ◌ ◌-ℤ◌
rounds = refl

overflows : rto_get initial_rto (pos 2147483648) 2 ≡ negsuc (8 * 1879039232 - 1)
unfolding rto_get estimate to_float round_float round_at float_unit micros abs_int int_of quot_ℤ
    times_ℤ ◌+ℤ◌ ◌-ℤ◌
overflows = refl

rto_get-forgets_example : rto_get initial_rto (pos 100) 2 ≡ pos (72000 + 9 * 100)
rto_get-forgets_example = rto_get-forgets initial_rto 100 0 (omega arith)

rto_get-positive_example : pos 0 <ℤ rto_get initial_rto (pos 3000001) 2
rto_get-positive_example = rto_get-positive initial_rto 3000001 2 (omega arith) (omega arith)
