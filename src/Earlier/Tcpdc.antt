-- ===== src/Earlier/Tcpdc.antt =====
-- The earlier sending daemon, tcpdc.c. It waits for an acknowledgement after each packet. `none` in
-- `flagArray` is -1. Sequence numbers wrap around at 2 ^ 32.
pub mod Message
pub mod Start
pub mod Round
pub mod Sends
pub mod Slots
pub mod Counted
mod Tests
use reliable_udp.Base.{
  Bool, List, Option, [], drop, false, if◌then◌else◌, is_seq, length, ltb, ltb_ℤ, none, pos,
  pos_part, replicate, set, some, suc, take, true, ℕ, ℤ, ◌%◌, ◌++◌, ◌+ℤ◌, ◌+◌, ◌-ℤ◌, ◌-◌, ◌==◌, ◌^◌,
  ◌∷◌,
}
use mathlib.Core.Option
use reliable_udp.BitCrc.{update_crc}
use reliable_udp.Earlier.Header.{TcpHeader, header_bytes, read_header, zero_header}
use reliable_udp.Earlier.Memory.{put_at, receive, received, signed_of, unsigned_of}
use reliable_udp.Outcome.{Outcome, exited, fault, running, then_on}
use reliable_udp.Packet.{zero_bytes}

pub record Tcpdc : Type 0 where
  -- `messageHeader` and `messageBody` of `message`.
  pub message_header : List ℕ
  pub message_body : List ℕ
  -- The bodies in `storageBuffer`; its addresses are never read.
  pub storage_buffer : List (List ℕ)
  pub flag_array : List (Option ℕ)
  -- `store`, which is unset until a free slot is first looked for and found.
  pub store : Option ℕ
  -- `counterBuffer`, which is never negative where it is read.
  pub counter_buffer : ℕ
  pub seq_number : ℕ
  pub counter : ℕ
  pub bytes_received : ℤ
  pub file_size : ℤ
  pub ack_buffer : List ℕ

-- To the troll, to the copy of the file, the two kinds of message to the timer, the flag for the
-- file client, and the status of an `exit`.
pub data TcpdcOutput : Type 0 where
  to_troll : List ℕ → TcpdcOutput
  to_copy : List ℕ → TcpdcOutput
  data_to_timer : ℕ → ℕ → TcpdcOutput
  ack_to_timer : List ℕ → TcpdcOutput
  to_ftpc : ℕ → TcpdcOutput
  status : ℕ → TcpdcOutput

-- `insertTCPHeader`, which sets every field.
unfoldable pub insert_tcp_header : ℕ → ℕ → TcpHeader
insert_tcp_header seq crc16 = record zero_header { sequence_number = seq; check_sum = crc16 }

-- `messageBody` around some bytes: they are put behind the header, the checksum is computed with
-- zero in its field, over what `recvfrom` returned and 20 bytes more, and the header is put in
-- again. `memory` stands behind the bits in the array of `update_crc`.
unfoldable pub message_with : List ℕ → ℕ → ℤ → List ℕ → List ℕ → List ℕ
message_with body seq size bytes memory =
    let plain = put_at 0 (header_bytes (insert_tcp_header seq 0)) (put_at 20 bytes body) in
    let crc16 = update_crc (take (pos_part (size +ℤ pos 20)) plain) memory % 65536 in
    put_at 0 (header_bytes (insert_tcp_header seq crc16)) plain

-- The int at the start of a body, as `flagArray` takes it.
unfoldable pub flag_of : List ℕ → Option ℕ
flag_of body = let flag = unsigned_of body in if flag == 2 ^ 32 - 1 then none else some flag

-- The first index whose flag is -1.
unfoldable pub free_slot : List (Option ℕ) → Option ℕ
free_slot [] = none
free_slot (none ∷ flags) = some 0
free_slot (some s ∷ flags) = Option.map suc (free_slot flags)

unfoldable pub store_after : Option ℕ → Option ℕ → Option ℕ
store_after none old = old
store_after (some i) old = some i

-- The flags with an acknowledged number are set to -1.
unfoldable pub free_flags : List (Option ℕ) → ℕ → List (Option ℕ)
free_flags [] s = []
free_flags (c ∷ cs) s = (if is_seq c s then none else c) ∷ free_flags cs s

-- What the loop begins with, and what a round meets: the packet of the file client, which is read
-- only if it was asked for, memory of `update_crc`, and the acknowledgement.
pub record Arrival : Type 0 where
  pub packet : Option (List ℕ)
  pub memory : List ℕ
  pub ack : Option (List ℕ)

-- The body goes into a slot. An unset `store` is a fault.
unfoldable pub keep_body : Tcpdc → Option ℕ → Outcome Tcpdc TcpdcOutput
keep_body c none = fault
keep_body c (some i) =
    running
      (record c {
        store = some i;
        storage_buffer = set c.storage_buffer i c.message_body;
        flag_array = set c.flag_array i (flag_of c.message_body);
        counter_buffer = c.counter_buffer + 1;
      })
      []

-- The packet goes to the troll: the address and so many bytes of the body.
unfoldable pub send_message : ℕ → Tcpdc → Outcome Tcpdc TcpdcOutput
send_message size c = running c (to_troll (c.message_header ++ take size c.message_body) ∷ [])

-- Its number and its count go to the timer.
unfoldable pub start_timer : Tcpdc → Outcome Tcpdc TcpdcOutput
start_timer c =
    running (record c { seq_number = (c.seq_number + 1) % 2 ^ 32; counter = c.counter + 1 })
      (data_to_timer c.seq_number (c.counter + 1) ∷ [])

-- The part under `tempFlag == 1`. A copy of -1 bytes is a fault.
unfoldable pub take_packet : Tcpdc → Option (List ℕ) → List ℕ → Outcome Tcpdc TcpdcOutput
take_packet c none memory = fault
take_packet c (some bytes) memory =
    let size = received (some bytes) in
    let c' = record c {
      bytes_received = c.bytes_received +ℤ size;
      message_body = message_with c.message_body c.seq_number size bytes memory;
    } in
    then_on (running c' (to_copy bytes ∷ [])) (λ c₁.
      then_on (keep_body c₁ (store_after (free_slot c₁.flag_array) c₁.store))
        (λ c₂. then_on (send_message (length bytes + 20) c₂) start_timer))

-- `ackReceived != 0`.
unfoldable pub is_received : Option (List ℕ) → Bool
is_received none = true
is_received (some []) = false
is_received (some (b ∷ bs)) = true

-- The acknowledgement: it goes to the timer, one packet fewer is counted, and slots are freed.
unfoldable pub take_ack : Option (List ℕ) → Tcpdc → Outcome Tcpdc TcpdcOutput
take_ack ack c =
    let ack_buffer = receive ack c.ack_buffer in
    let c' = record c { ack_buffer = ack_buffer } in
    running
      (if is_received ack
        then record c' {
          counter_buffer = c.counter_buffer - 1;
          flag_array = free_flags c.flag_array (read_header ack_buffer).sequence_number;
        }
        else c')
      (ack_to_timer ack_buffer ∷ [])

-- A round of the loop: the file client is asked for a packet if fewer than 64 are counted.
unfoldable pub tcpdc_round : Tcpdc → Arrival → Outcome Tcpdc TcpdcOutput
tcpdc_round c a =
    if ltb c.counter_buffer 64
    then then_on (running c (to_ftpc 1 ∷ []))
        (λ c₁. then_on (take_packet c₁ a.packet a.memory) (take_ack a.ack))
    else then_on (running c (to_ftpc 0 ∷ [])) (take_ack a.ack)

unfoldable pub tcpdc_loop : Tcpdc → List Arrival → Outcome Tcpdc TcpdcOutput
tcpdc_loop c [] = if ltb_ℤ c.bytes_received c.file_size then running c [] else exited []
tcpdc_loop c (a ∷ arrivals) =
    let rounds = then_on (tcpdc_round c a) (λ c'. tcpdc_loop c' arrivals) in
    if ltb_ℤ c.bytes_received c.file_size then rounds else exited []

-- The address that the troll is to pass a message on to: family, port 7002, and the host's four
-- bytes.
unfoldable pub server_address : List ℕ → List ℕ
server_address host = put_at 4 host (0 ∷ 2 ∷ 27 ∷ 90 ∷ zero_bytes 12)

-- `tcpdcBuffer` with the first packet.
unfoldable pub first_buffer : Option (List ℕ) → List ℕ
first_buffer packet = receive packet (zero_bytes 1000)

-- The state in which the first packet is in slot 0.
unfoldable pub after_first : List ℕ → List ℕ → Option (List ℕ) → List ℕ → Tcpdc
after_first host stack packet memory =
    let body = message_with (zero_bytes 1020) 1000 (received packet) (first_buffer packet) memory in
    record {
      message_header = server_address host;
      message_body = body;
      storage_buffer = set (replicate 64 (zero_bytes 1020)) 0 body;
      flag_array = set (replicate 64 none) 0 (flag_of body);
      store = none;
      counter_buffer = 1;
      seq_number = 1000;
      counter = 0;
      bytes_received = received packet -ℤ pos 24;
      file_size = signed_of (unsigned_of (first_buffer packet));
      ack_buffer = stack;
    }

-- The first acknowledgement only goes to the timer.
unfoldable pub first_ack : Option (List ℕ) → Tcpdc → Outcome Tcpdc TcpdcOutput
first_ack ack c =
    let ack_buffer = receive ack c.ack_buffer in
    running (record c { ack_buffer = ack_buffer }) (ack_to_timer ack_buffer ∷ [])

module _ (gethostbyname : List ℕ → Option (List ℕ)) where
  -- The part before the loop. The whole message is sent, whatever was received.
  unfoldable pub start_tcpdc : List ℕ → List ℕ → Arrival → Outcome Tcpdc TcpdcOutput
  start_tcpdc host_name stack a = elim (gethostbyname host_name) [
    | none ↦ exited (status 5 ∷ [])
    | some host ↦ then_on (send_message 1020 (after_first host stack a.packet a.memory)) (λ c₁.
        then_on (running c₁ (to_copy (take 976 (drop 24 (first_buffer a.packet))) ∷ []))
          (λ c₂. then_on (start_timer c₂) (first_ack a.ack)))
  ]

  -- The whole program.
  unfoldable pub tcpdc_run : List ℕ → List ℕ → Arrival → List Arrival → Outcome Tcpdc TcpdcOutput
  tcpdc_run host_name stack a arrivals =
      then_on (start_tcpdc host_name stack a) (λ c. tcpdc_loop c arrivals)
