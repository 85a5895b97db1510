-- ===== src/Earlier/Header.antt =====
-- The header of tcpheader.c, and the 20 bytes that tcpdc.c and tcpds.c copy of it with memcpy. Their
-- layout is the one of gcc on x86-64, no code of the programs: the bit fields are in bytes 12 and 13.
pub mod Layout
use reliable_udp.Base.{List, [], drop, get_or, ℕ, ◌%◌, ◌*◌, ◌++◌, ◌+◌, ◌/◌, ◌∷◌}
use reliable_udp.Earlier.Memory.{unsigned_of}
use reliable_udp.Packet.{int_bytes}

pub record TcpHeader : Type 0 where
  pub source_port : ℕ
  pub destination_port : ℕ
  pub sequence_number : ℕ
  pub ack_number : ℕ
  pub tcph_offset : ℕ
  pub reserved : ℕ
  pub tcph_fin : ℕ
  pub tcph_syn : ℕ
  pub tcph_rst : ℕ
  pub tcph_psh : ℕ
  pub tcph_ack : ℕ
  pub tcph_urg : ℕ
  pub tcph_res2 : ℕ
  pub window : ℕ
  pub check_sum : ℕ
  pub urg_ptr : ℕ

-- The bytes of an unsigned short int, lowest first.
unfoldable pub short_bytes : ℕ → List ℕ
short_bytes n = n % 256 ∷ n / 256 % 256 ∷ []

-- The two bytes of bit fields.
unfoldable pub field_bytes : TcpHeader → List ℕ
field_bytes h =
    (h.tcph_offset + h.reserved * 16)
    ∷ (h.tcph_fin
        + (h.tcph_syn * 2
            + (h.tcph_rst * 4
                + (h.tcph_psh * 8 + (h.tcph_ack * 16 + (h.tcph_urg * 32 + h.tcph_res2 * 64))))))
    ∷ []

-- `memcpy` from a header.
unfoldable pub header_bytes : TcpHeader → List ℕ
unfolding short_bytes field_bytes int_bytes
header_bytes h =
    short_bytes h.source_port
    ++ (short_bytes h.destination_port
        ++ (int_bytes h.sequence_number
            ++ (int_bytes h.ack_number
                ++ (field_bytes h
                    ++ (short_bytes h.window
                        ++ (short_bytes h.check_sum ++ short_bytes h.urg_ptr))))))

-- The unsigned short int at a place.
unfoldable pub short_at : List ℕ → ℕ → ℕ
short_at bytes i = get_or bytes i 0 + get_or bytes (i + 1) 0 * 256

-- `memcpy` into a header.
unfoldable pub read_header : List ℕ → TcpHeader
unfolding short_at unsigned_of
read_header bytes = record {
  source_port = short_at bytes 0;
  destination_port = short_at bytes 2;
  sequence_number = unsigned_of (drop 4 bytes);
  ack_number = unsigned_of (drop 8 bytes);
  tcph_offset = get_or bytes 12 0 % 16;
  reserved = get_or bytes 12 0 / 16 % 16;
  tcph_fin = get_or bytes 13 0 % 2;
  tcph_syn = get_or bytes 13 0 / 2 % 2;
  tcph_rst = get_or bytes 13 0 / 4 % 2;
  tcph_psh = get_or bytes 13 0 / 8 % 2;
  tcph_ack = get_or bytes 13 0 / 16 % 2;
  tcph_urg = get_or bytes 13 0 / 32 % 2;
  tcph_res2 = get_or bytes 13 0 / 64 % 4;
  window = short_at bytes 14;
  check_sum = short_at bytes 16;
  urg_ptr = short_at bytes 18;
}

-- A header with zeros in every field.
abbrev pub zero_header : TcpHeader
zero_header = record {
  source_port = 0;
  destination_port = 0;
  sequence_number = 0;
  ack_number = 0;
  tcph_offset = 0;
  reserved = 0;
  tcph_fin = 0;
  tcph_syn = 0;
  tcph_rst = 0;
  tcph_psh = 0;
  tcph_ack = 0;
  tcph_urg = 0;
  tcph_res2 = 0;
  window = 0;
  check_sum = 0;
  urg_ptr = 0;
}
