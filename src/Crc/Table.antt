-- ===== src/Crc/Table.antt =====
-- The table of checksum.h and the generator beside it.
use reliable_udp.Base.{==→eq, all_below, all_below-get, refl, true, ℕ, ◌<◌, ◌==◌, ◌≡◌}
use reliable_udp.Crc.{crctab_at, shift_poly, table_entry}

whole_table : all_below 256 (λ i. crctab_at i == table_entry i) ≡ true
unfolding all_below crctab_at table_entry shift_poly
whole_table = refl

-- Each of the 256 numbers of `crctab` is the one that `build_table` computes for its place.
pub crctab-table_entry : (i : ℕ) → i < 256 → crctab_at i ≡ table_entry i
crctab-table_entry i h =
    ==→eq (crctab_at i) (table_entry i)
      (all_below-get 256 (λ k. crctab_at k == table_entry k) i whole_table h)
