-- ===== src/Crc32.antt =====
-- The CRC-32 of crc32.c, highest bit first, on 32-bit numbers.
pub mod Mirror
mod Tests
use reliable_udp.Base.{List, [], if◌then◌else◌, suc, zero, ℕ, ◌%◌, ◌*◌, ◌-◌, ◌/◌, ◌==◌, ◌∷◌}
use Prim.Native.Nat.{bit_xor}

abbrev pub crc_polynomial : ℕ
crc_polynomial = 0x04c11db7

-- A round of the inner loop of crcTableInit.
unfoldable pub shift_accum : ℕ → ℕ
shift_accum accum =
    let shifted = accum * 2 % 4294967296 in
    if accum / 2147483648 % 2 == 1 then bit_xor shifted crc_polynomial else shifted

unfoldable pub shift_rounds : ℕ → ℕ → ℕ
shift_rounds zero accum = accum
shift_rounds (suc j) accum = shift_rounds j (shift_accum accum)

-- `crc_table[i]` after crcTableInit.
unfoldable pub crc_table_entry : ℕ → ℕ
crc_table_entry i = shift_rounds 8 (i * 16777216)

-- The loop of update_crc.
unfoldable pub update_accum : ℕ → List ℕ → ℕ
update_accum accum [] = accum
update_accum accum (b ∷ bs) =
    let i = bit_xor (accum / 16777216) b % 256 in
    update_accum (bit_xor (accum * 256 % 4294967296) (crc_table_entry i)) bs

unfoldable pub update_crc : List ℕ → ℕ
update_crc bytes = 4294967295 - update_accum 4294967295 bytes
