-- ===== src/Server/Tests.antt =====
-- The receiving daemon with two packets, the second of which comes first.
use reliable_udp.Base.{List, [], arith, inl, inr, refl, ℕ, ◌∷◌, ◌≡◌, ◌≤◌}
use reliable_udp.Crc.{checksum_of}
use reliable_udp.Outcome.{exited}
use reliable_udp.Packet.{Packet, PacketData}
use reliable_udp.Server.{ServerOutput, server_run, start_server}
use reliable_udp.Server.Delivery.{IsFaithful}
use reliable_udp.Server.Lossless.{IsNext, server_run_exits}
use reliable_udp.Server.Run.{AllTrusted, server_run_in_order}

abbrev packet : ℕ → ℕ → PacketData
packet n fin = record {
  sequence_num = n;
  ack = 0;
  ackseq = 0;
  bytes_in_packet = 1;
  fin = fin;
  finack = 0;
  stop = 0;
  contents = 7 ∷ [];
}

abbrev both : List PacketData
both = packet 0 0 ∷ packet 1 1 ∷ []

abbrev wrapped : PacketData → Packet
wrapped d = record { msg_header = 0; packetdata = d; checksum = checksum_of d }

abbrev junk : Packet
junk = wrapped (packet 40 0)

abbrev arrived : List Packet
arrived = wrapped (packet 1 1) ∷ wrapped (packet 0 0) ∷ []

trusted : AllTrusted both 3 arrived
trusted = ((λ e. refl), ((λ e. refl), tt))

server_run_in_order_example : IsFaithful both 0 junk (server_run 3 (start_server junk junk) arrived)
server_run_in_order_example = server_run_in_order both 3 junk junk arrived trusted

abbrev ordered : List Packet
ordered = wrapped (packet 0 0) ∷ wrapped (packet 1 1) ∷ []

packet-IsNext : (n fin : ℕ) → n ≤ 1000 → IsNext n (wrapped (packet n fin))
packet-IsNext n fin small = record {
  right = refl;
  number = refl;
  short = omega arith;
  small = small;
}

server_run_exits_example :
    (os : List ServerOutput) × (server_run 3 (start_server junk junk) ordered ≡ exited os)
server_run_exits_example = server_run_exits 3 junk junk ordered (
  packet-IsNext 0 0 (omega arith),
  (omega arith),
  inr ((λ e. absurd (omega arith)), (packet-IsNext 1 1 (omega arith), (omega arith), inl refl)),
)
