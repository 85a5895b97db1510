-- ===== src/Crc32/Mirror.antt =====
-- The tables of crc32.c and checksum.h belong to the same polynomial.
use reliable_udp.Base.{
  ==→eq, all_below, all_below-get, refl, suc, true, zero, ℕ, ◌%◌, ◌*◌, ◌+◌, ◌/◌, ◌<◌, ◌==◌, ◌^◌,
  ◌≡◌,
}
use reliable_udp.Crc.{crctab_at}
use reliable_udp.Crc32.{crc_table_entry, shift_accum, shift_rounds}

-- The lowest bits of a number, in reverse order.
unfoldable pub mirrored : ℕ → ℕ → ℕ
mirrored zero x = 0
mirrored (suc k) x = x % 2 * 2 ^ k + mirrored k (x / 2)

whole_mirror :
    all_below 256 (λ i. crc_table_entry i == mirrored 32 (crctab_at (mirrored 8 i))) ≡ true
unfolding all_below crc_table_entry shift_rounds shift_accum mirrored crctab_at
whole_mirror = refl

-- The table that `crcTableInit` fills is the mirror image of `crctab`: the 32 bits of each entry are
-- those of the `crctab` entry at the place with the mirrored number, in reverse order.
pub crc_table_entry-mirrored :
    (i : ℕ) → i < 256 → crc_table_entry i ≡ mirrored 32 (crctab_at (mirrored 8 i))
crc_table_entry-mirrored i h = ==→eq (crc_table_entry i) (mirrored 32 (crctab_at (mirrored 8 i))) (
    all_below-get 256 (λ k. crc_table_entry k == mirrored 32 (crctab_at (mirrored 8 k))) i
      whole_mirror h)
