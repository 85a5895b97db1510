-- ===== src/Crc32/Tests.antt =====
-- The second entry, and a known checksum.
use reliable_udp.Base.{[], arith, refl, ◌∷◌, ◌≡◌}
use reliable_udp.Crc.{crctab_at}
use reliable_udp.Crc32.{crc_table_entry, shift_accum, shift_rounds, update_accum, update_crc}
use reliable_udp.Crc32.Mirror.{crc_table_entry-mirrored, mirrored}

crc_table_entry-mirrored_example : crc_table_entry 1 ≡ mirrored 32 (crctab_at (mirrored 8 1))
crc_table_entry-mirrored_example = crc_table_entry-mirrored 1 (omega arith)

update_crc_check :
    update_crc (b'1' ∷ b'2' ∷ b'3' ∷ b'4' ∷ b'5' ∷ b'6' ∷ b'7' ∷ b'8' ∷ b'9' ∷ []) ≡ 0xfc891918
unfolding update_crc update_accum crc_table_entry shift_rounds shift_accum
update_crc_check = refl
