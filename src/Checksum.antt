-- ===== src/Checksum.antt =====
-- The Internet checksum of checksum.c, on a machine that stores the low byte of a word first.
pub mod Verify
mod Tests
use reliable_udp.Base.{List, [], if◌then◌else◌, suc, zero, ℕ, ◌%◌, ◌*◌, ◌+◌, ◌-◌, ◌/◌, ◌==◌, ◌∷◌}

-- The summing loop on a 32-bit sum, with the left-over byte.
unfoldable pub sum_words : ℕ → List ℕ → ℕ
sum_words sum [] = sum
sum_words sum (a ∷ []) = (sum + a) % 4294967296
sum_words sum (a ∷ b ∷ rest) = sum_words ((sum + (a + 256 * b)) % 4294967296) rest

-- `while (sum >> 16)`, at most as many times as the first argument says; 2 are enough.
unfoldable pub fold_sum : ℕ → ℕ → ℕ
fold_sum zero sum = sum
fold_sum (suc k) sum =
    let next = fold_sum k (sum % 65536 + sum / 65536) in if sum / 65536 == 0 then sum else next

-- The 16 bits of `~sum`.
unfoldable pub checksum : List ℕ → ℕ
checksum addr = 65535 - fold_sum 2 (sum_words 0 addr) % 65536
