-- ===== src/Earlier/Tcpdc/Start.antt =====
-- The part of the earlier sending daemon before its loop.
use reliable_udp.Base.{
  List, Option, [], ◌-ℤ◌, append_assoc, take, drop, ap, arith, length, length-append,
  length-replicate, pos, refl, replicate, some, sym, ℕ, ◌++◌, ◌+◌, ◌∙◌, ◌∷◌, ◌≡◌, ◌≤◌,
}
use reliable_udp.Earlier.Copies.{length-put_at, put_at-whole}
use reliable_udp.Earlier.Header.{header_bytes}
use reliable_udp.Earlier.Header.Layout.{length-header_bytes}
use reliable_udp.Earlier.Memory.{receive, received, signed_of, unsigned_of}
use reliable_udp.Earlier.Tcpdc.{
  Arrival, Tcpdc, TcpdcOutput, after_first, data_to_timer, ack_to_timer, first_ack, first_buffer,
  free_slot, insert_tcp_header, send_message, server_address, start_tcpdc, start_timer, store_after,
  to_copy, to_troll,
}
use reliable_udp.Earlier.Tcpdc.Message.{
  flag_of-message_with, length-message_with, take-message_with,
}
use reliable_udp.Earlier.Tcpdc.Sends.{CanSend, messages}
use reliable_udp.Earlier.Tcpds.Passes.{Wraps}
use reliable_udp.Outcome.{running, sends_first, then_on}
use reliable_udp.Packet.{zero_bytes}

module _ (gethostbyname : List ℕ → Option (List ℕ)) (host_name stack host first : List ℕ)
    (a : Arrival) (known : gethostbyname host_name ≡ some host) (packet : a.packet ≡ some first)
    (is1000 : length first ≡ 1000) where
  abbrev begun : Tcpdc
  begun = after_first host stack a.packet a.memory

  buffered : first_buffer a.packet ≡ first
  unfolding first_buffer receive zero_bytes
  buffered =
      ap (λ p. receive p (zero_bytes 1000)) packet
      ∙ put_at-whole first (zero_bytes 1000) (is1000 ∙ sym (length-replicate {A = ℕ} 1000 0))

  abbrev front_message : List ℕ
  front_message = server_address host ++ take 1020 begun.message_body

  -- The state before the loop, and what is sent before it.
  abbrev ready : Tcpdc
  ready = record begun { seq_number = 1001; counter = 1; ack_buffer = receive a.ack stack }

  abbrev first_sent : List TcpdcOutput
  first_sent =
      to_troll front_message
      ∷ to_copy (take 976 (drop 24 (first_buffer a.packet)))
      ∷ data_to_timer 1000 1
      ∷ ack_to_timer (receive a.ack stack)
      ∷ []

  begins : start_tcpdc gethostbyname host_name stack a ≡ running ready first_sent
  unfolding start_tcpdc then_on sends_first send_message start_timer first_ack after_first
  begins = rw (known, start_tcpdc)

  fits : 20 + length (first_buffer a.packet) ≤ length (zero_bytes 1020)
  unfolding zero_bytes
  fits = omega (arith, ap length buffered, length-replicate {A = ℕ} 1020 0)

  length-server_address : length (server_address host) ≡ 16
  unfolding server_address zero_bytes
  length-server_address = length-put_at 4 host (0 ∷ 2 ∷ 27 ∷ 90 ∷ replicate 12 0)

  front_message-Wraps : Wraps (some front_message) first
  unfolding after_first
  front_message-Wraps =
      let (crc16, e) =
        take-message_with (zero_bytes 1020) 1000 (received a.packet) (first_buffer a.packet)
          a.memory fits in
      let header = header_bytes (insert_tcp_header 1000 crc16) in
      (
        server_address host ++ header,
        length-append (server_address host) header
            ∙ omega
                (arith, length-server_address, length-header_bytes (insert_tcp_header 1000 crc16)),
        ap some (
            ap (λ n. server_address host ++ take n begun.message_body) thousand
            ∙ ap (λ x. server_address host ++ x) (e ∙ ap (λ x. header ++ x) buffered)
            ∙ sym (append_assoc (server_address host) header first)),
      )
    where
      thousand : 1020 ≡ length (first_buffer a.packet) + 20
      thousand = omega (arith, ap length buffered)

  ready-CanSend : CanSend ready
  unfolding after_first zero_bytes free_slot store_after
  ready-CanSend = record {
    length_body =
        length-message_with (zero_bytes 1020) 1000 (received a.packet) (first_buffer a.packet)
          a.memory
        ∙ length-replicate {A = ℕ} 1020 0;
    length_header = length-server_address;
    few = omega arith;
    slot = (
      1,
      rw (
          flag_of-message_with (zero_bytes 1020) 1000 (received a.packet) (first_buffer a.packet)
            a.memory fits),
    );
  }

  counted : received a.packet -ℤ pos 24 ≡ pos 976
  unfolding received ◌-ℤ◌
  counted = ap (λ p. received p -ℤ pos 24) packet ∙ ap (λ (n : ℕ). pos n -ℤ pos 24) is1000

  -- The first packet is sent behind 36 bytes, and the loop begins with 976 bytes counted.
  pub start_tcpdc_sends :
      (c : Tcpdc) × (os : List TcpdcOutput) × (start_tcpdc gethostbyname host_name stack a
        ≡ running c os)
      × (m : List ℕ) × (messages os ≡ m ∷ [])
      × Wraps (some m) first
      × CanSend c
      × (c.bytes_received ≡ pos 976)
      × (c.file_size ≡ signed_of (unsigned_of first))
  unfolding after_first
  start_tcpdc_sends = (
    ready,
    first_sent,
    begins,
    front_message,
    refl,
    front_message-Wraps,
    ready-CanSend,
    counted,
    ap (λ x. signed_of (unsigned_of x)) buffered,
  )
