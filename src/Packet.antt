-- ===== src/Packet.antt =====
-- The packets of packet.h. An int is its value: the programs store only values from 0 up in these
-- fields, and -1 in sequence numbers that stand for none, which the models write as `none`. The
-- address in `msg_header` is a number that is only copied.
use reliable_udp.Base.{List, [], replicate, ℕ, ◌%◌, ◌++◌, ◌/◌, ◌∷◌}

pub record PacketData : Type 0 where
  pub sequence_num : ℕ
  pub ack : ℕ
  pub ackseq : ℕ
  pub bytes_in_packet : ℕ
  pub fin : ℕ
  pub finack : ℕ
  pub stop : ℕ
  pub contents : List ℕ

pub record Packet : Type 0 where
  pub msg_header : ℕ
  pub packetdata : PacketData
  pub checksum : ℕ

-- The bytes of an int, lowest first.
unfoldable pub int_bytes : ℕ → List ℕ
int_bytes n = n % 256 ∷ n / 256 % 256 ∷ n / 65536 % 256 ∷ n / 16777216 % 256 ∷ []

-- `struct packetdata` as it lies in memory, without padding: seven ints and the data.
unfoldable pub struct_bytes : PacketData → List ℕ
struct_bytes d =
    int_bytes d.sequence_num
    ++ (int_bytes d.ack
        ++ (int_bytes d.ackseq
            ++ (int_bytes d.bytes_in_packet
                ++ (int_bytes d.fin ++ (int_bytes d.finack ++ (int_bytes d.stop ++ d.contents))))))

-- Zeroed memory.
unfoldable pub zero_bytes : ℕ → List ℕ
zero_bytes n = replicate n 0
