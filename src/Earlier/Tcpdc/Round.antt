-- ===== src/Earlier/Tcpdc/Round.antt =====
-- A round of the earlier sending daemon that takes a packet.
use reliable_udp.Base.{
  List, Option, [], set, if◌then◌else◌, length, lt→ltb, pos, some, ℕ, ◌%◌, ◌++◌, ◌+ℤ◌, ◌+◌, ◌-◌,
  ◌<◌, ◌^◌, ◌∷◌, ◌≡◌, take,
}
use reliable_udp.Earlier.Header.{read_header}
use reliable_udp.Earlier.Memory.{receive, received}
use reliable_udp.Earlier.Tcpdc.{
  Tcpdc, TcpdcOutput, ack_to_timer, data_to_timer, flag_of, free_flags, free_slot, is_received,
  keep_body, message_with, send_message, start_timer, store_after, take_ack, take_packet,
  tcpdc_round, to_copy, to_ftpc, to_troll,
}
use reliable_udp.Outcome.{running, sends_first, then_on}

module _ (c : Tcpdc) (bytes memory : List ℕ) (i : ℕ) where
  abbrev pub body : List ℕ
  body = message_with c.message_body c.seq_number (pos (length bytes)) bytes memory

  -- The state after the packet was sent and its timer started.
  abbrev pub after_packet : Tcpdc
  after_packet = record c {
    message_body = body;
    storage_buffer = set c.storage_buffer i body;
    flag_array = set c.flag_array i (flag_of body);
    store = some i;
    counter_buffer = c.counter_buffer + 1;
    seq_number = (c.seq_number + 1) % 2 ^ 32;
    counter = c.counter + 1;
    bytes_received = c.bytes_received +ℤ pos (length bytes);
  }

  -- The message for the troll.
  abbrev pub message : List ℕ
  message = c.message_header ++ take (length bytes + 20) body

  -- The state after the acknowledgement of such a round.
  abbrev pub after_ack : Option (List ℕ) → Tcpdc
  after_ack ack =
      let ack_buffer = receive ack c.ack_buffer in
      if is_received ack
      then record after_packet {
        ack_buffer = ack_buffer;
        counter_buffer = c.counter_buffer + 1 - 1;
        flag_array =
            free_flags (set c.flag_array i (flag_of body)) (read_header ack_buffer).sequence_number;
      }
      else record after_packet { ack_buffer = ack_buffer }

  abbrev pub sent : Option (List ℕ) → List TcpdcOutput
  sent ack =
      to_ftpc 1
      ∷ to_copy bytes
      ∷ to_troll message
      ∷ data_to_timer c.seq_number (c.counter + 1)
      ∷ ack_to_timer (receive ack c.ack_buffer)
      ∷ []

  packet_taken :
      store_after (free_slot c.flag_array) c.store ≡ some i
      → take_packet c (some bytes) memory
        ≡ running after_packet
            (to_copy bytes ∷ to_troll message ∷ data_to_timer c.seq_number (c.counter + 1) ∷ [])
  unfolding take_packet keep_body send_message start_timer then_on sends_first received
  packet_taken slot = rw slot

  -- With fewer than 64 packets counted and a slot at hand, the round asks for a packet, keeps it in
  -- the slot, sends it, starts its timer, and takes the acknowledgement.
  pub round_takes :
      (ack : Option (List ℕ))
      → c.counter_buffer < 64
      → store_after (free_slot c.flag_array) c.store ≡ some i
      → tcpdc_round c (record { packet = some bytes; memory = memory; ack = ack })
        ≡ running (after_ack ack) (sent ack)
  unfolding tcpdc_round take_ack then_on sends_first
  round_takes ack few slot = rw (lt→ltb c.counter_buffer 64 few, packet_taken slot)
