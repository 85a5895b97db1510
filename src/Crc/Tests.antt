-- ===== src/Crc/Tests.antt =====
-- The last entry of the table.
use reliable_udp.Base.{arith, ◌≡◌}
use reliable_udp.Crc.{crctab_at, table_entry}
use reliable_udp.Crc.Table.{crctab-table_entry}

crctab-table_entry_example : crctab_at 255 ≡ table_entry 255
crctab-table_entry_example = crctab-table_entry 255 (omega arith)
