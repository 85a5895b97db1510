-- ===== src/Server.antt =====
-- The daemon on the receiving side, tcpdserver.c. A round of its loop takes the packet that the
-- troll delivers next. `window` and `acks` hold -1, here `none`, where no sequence number stands.
-- Packets are checked by `checksum_of`.
use reliable_udp.Base.{
  Bool, List, Option, [], false, get_elem?, if◌then◌else◌, is_seq, leb, ltb, map, none, replicate,
  seq_after, set, some, suc, take, ℕ, ◌%◌, ◌&&◌, ◌++◌, ◌+◌, ◌==◌, ◌||◌, ◌∷◌,
}
use reliable_udp.Crc.{checksum_of}
use reliable_udp.Outcome.{Outcome, exited, fault, running, sends_first, then_on}
use reliable_udp.Packet.{Packet, PacketData, zero_bytes}
use mathlib.Core.Option
pub mod Search
pub mod Invariant
pub mod Delivery
pub mod Run
pub mod OneCell
pub mod Lossless
pub mod LongRun
mod Tests

pub record Server : Type 0 where
  pub window : List (Option ℕ)
  pub acks : List (Option ℕ)
  pub ack_pointer : ℕ
  pub buffer : List Packet
  pub head : ℕ
  pub last_sent : Option ℕ
  -- `packetsSentToServer`, an array of 1000 that is only written.
  pub marks : List ℕ
  -- `request_packet`, which keeps what earlier rounds stored in it.
  pub request : Packet
  -- `received_packet`, which is never set.
  pub received : Packet

-- To the file server, to the troll (an acknowledgement), and to the copy in tcpd.txt.
pub data ServerOutput : Type 0 where
  to_ftps : Packet → ServerOutput
  to_log : List ℕ → ServerOutput
  to_daemon : Packet → ServerOutput

-- A static packet is zero at the start.
abbrev pub zero_data : PacketData
zero_data = record {
  sequence_num = 0;
  ack = 0;
  ackseq = 0;
  bytes_in_packet = 0;
  fin = 0;
  finack = 0;
  stop = 0;
  contents = zero_bytes 900;
}

abbrev pub zero_packet : Packet
zero_packet = record { msg_header = 0; packetdata = zero_data; checksum = 0 }

-- The state before the loop: what the two local packets hold is whatever the stack held.
unfoldable pub start_server : Packet → Packet → Server
start_server request received = record {
  window = replicate 20 none;
  acks = replicate 64 none;
  ack_pointer = 0;
  buffer = replicate 64 zero_packet;
  head = 0;
  last_sent = none;
  marks = replicate 1000 0;
  request = request;
  received = received;
}

abbrev pub seq_of : Packet → ℕ
seq_of p = p.packetdata.sequence_num

-- The loops that look for a sequence number in `acks` and in `server_window`.
unfoldable pub holds_seq : List (Option ℕ) → ℕ → Bool
holds_seq [] s = false
holds_seq (c ∷ cs) s = is_seq c s || holds_seq cs s

-- `find_low`: the running minimum starts at 9999.
unfoldable pub lower : Option ℕ → ℕ → ℕ
lower none lowest = lowest
lower (some s) lowest = if ltb s lowest then s else lowest

unfoldable pub find_low_from : ℕ → List (Option ℕ) → ℕ
find_low_from lowest [] = lowest
find_low_from lowest (c ∷ cs) = find_low_from (lower c lowest) cs

unfoldable pub find_low : List (Option ℕ) → ℕ
find_low window = find_low_from 9999 window

-- `find_low_index`: the last cell with this number; `none` leaves `index` unset.
unfoldable pub find_low_index_from : ℕ → Option ℕ → List (Option ℕ) → ℕ → Option ℕ
find_low_index_from i index [] s = index
find_low_index_from i index (c ∷ cs) s =
    find_low_index_from (i + 1) (if is_seq c s then some i else index) cs s

unfoldable pub find_low_index : List (Option ℕ) → ℕ → Option ℕ
find_low_index window s = find_low_index_from 0 none window s

-- `find_low_in_buffer`: the first packet with this number, from `tail`, which stays 0; `none` is
-- the end of the function with no value returned.
unfoldable pub find_low_in_buffer : List Packet → ℕ → Option ℕ
find_low_in_buffer [] s = none
find_low_in_buffer (p ∷ ps) s =
    let rest = find_low_in_buffer ps s in if seq_of p == s then some 0 else Option.map suc rest

-- `head` and `ack_pointer` go round at 64.
unfoldable pub advance : ℕ → ℕ
advance i = if ltb i 63 then i + 1 else 0

-- What goes to the file server and to the copy.
unfoldable pub hand_out : Packet → List ServerOutput
hand_out p = to_ftps p ∷ to_log (take p.packetdata.bytes_in_packet p.packetdata.contents) ∷ []

module _ (destaddr : ℕ) where
  -- `request_packet` as the acknowledgement of `s`.
  unfoldable pub ack_packet : Packet → ℕ → Packet
  ack_packet request s =
      let d = record request.packetdata { ack = 1; ackseq = s } in
      record { msg_header = destaddr; packetdata = d; checksum = checksum_of d }

  unfoldable pub finack_packet : Packet → ℕ → Packet
  finack_packet request s =
      let d = record request.packetdata { finack = 1; ack = 0; ackseq = s } in
      record { msg_header = destaddr; packetdata = d; checksum = checksum_of d }

  -- The part under `received_checksum == …`: the packet in `server_buffer[head]` is taken in, known,
  -- or acknowledged again.
  unfoldable pub take_in : Server → Packet → Server × List ServerOutput
  take_in s p =
      if holds_seq s.acks (seq_of p)
      then (let again = ack_packet s.request (seq_of p) in
          (record s { request = again }, to_daemon again ∷ []))
      else (if holds_seq s.window (seq_of p) then (s, []) else (
        record s { window = set s.window (seq_of p % 20) (some (seq_of p)); head = advance s.head },
        [],
      ))

  -- A delivered packet that is not the last: acknowledged, and its cell freed.
  unfoldable pub acknowledge : Server → Packet → ℕ → Server × List ServerOutput
  acknowledge s p cell =
      let request = ack_packet s.request (seq_of p) in
      (
        record s {
          last_sent = some (seq_of p);
          acks = set s.acks s.ack_pointer (some (seq_of p));
          ack_pointer = advance s.ack_pointer;
          request = request;
          window = set s.window cell none;
          marks = set s.marks (seq_of p) 1;
        },
        to_daemon request ∷ [],
      )

  -- The delivered packet is a FIN: two FINACKs, and the end.
  unfoldable pub finish : Server → Packet → List ServerOutput
  finish s p =
      let request = finack_packet s.request (seq_of p) in
      to_ftps s.received ∷ to_daemon request ∷ to_daemon request ∷ []

  -- The packet with the lowest number goes out. A number from 1000 on is written past the
  -- marks, and more than 900 bytes are read past the data.
  unfoldable pub deliver_at : Server → Packet → ℕ → Outcome Server ServerOutput
  deliver_at s p cell =
      if ltb (seq_of p) 1000 && leb p.packetdata.bytes_in_packet 900
      then (if p.packetdata.fin == 1
          then exited (hand_out p ++ finish s p)
          else (let (s', os) = acknowledge s p cell in running s' (hand_out p ++ os)))
      else fault

  unfoldable pub deliver_slot : Server → Option Packet → ℕ → Outcome Server ServerOutput
  deliver_slot s none cell = fault
  deliver_slot s (some p) cell = deliver_at s p cell

  unfoldable pub deliver_found : Server → Option ℕ → Option ℕ → Outcome Server ServerOutput
  deliver_found s none cell = fault
  deliver_found s (some i) none = fault
  deliver_found s (some i) (some cell) = deliver_slot s (get_elem? s.buffer i) cell

  -- The part under `match == 1`.
  unfoldable pub deliver : Server → Outcome Server ServerOutput
  deliver s =
      let lowest = find_low s.window in
      if lowest == seq_after s.last_sent
      then deliver_found s (find_low_in_buffer s.buffer lowest) (find_low_index s.window lowest)
      else running s []

  -- A round: the packet is received into `server_buffer[head]`, and dropped unless its checksum is
  -- right.
  unfoldable pub server_step : Server → Packet → Outcome Server ServerOutput
  server_step s p =
      let s₁ = record s { buffer = set s.buffer s.head p } in
      if checksum_of p.packetdata == p.checksum
      then (let (s₂, os) = take_in s₁ p in sends_first os (deliver s₂))
      else running s₁ []

  -- The rounds for a list of packets, with all that they send.
  unfoldable pub server_run : Server → List Packet → Outcome Server ServerOutput
  server_run s [] = running s []
  server_run s (p ∷ ps) = then_on (server_step s p) (λ s'. server_run s' ps)
