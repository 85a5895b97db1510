-- ===== src/Earlier/Header/Layout.antt =====
-- What the daemons read of a header's bytes.
use reliable_udp.Base.{arith, length, refl, ℕ, ◌<◌, ◌^◌, ◌≡◌}
use reliable_udp.Earlier.Memory.{unsigned_of}
use reliable_udp.Packet.{int_bytes}
use reliable_udp.Earlier.Header.{TcpHeader, header_bytes, read_header}

pub length-header_bytes : (h : TcpHeader) → length (header_bytes h) ≡ 20
unfolding header_bytes
length-header_bytes h = refl

pub unsigned_of-int_bytes : (n : ℕ) → n < 2 ^ 32 → unsigned_of (int_bytes n) ≡ n
unfolding unsigned_of int_bytes
unsigned_of-int_bytes n h = omega arith

pub sequence-header_bytes :
    (h : TcpHeader)
    → h.sequence_number < 2 ^ 32
    → (read_header (header_bytes h)).sequence_number ≡ h.sequence_number
unfolding read_header header_bytes
sequence-header_bytes h r = unsigned_of-int_bytes h.sequence_number r
