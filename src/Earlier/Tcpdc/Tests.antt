-- ===== src/Earlier/Tcpdc/Tests.antt =====
-- The earlier sending daemon when all its slots are taken.
use reliable_udp.Base.{List, [], arith, get_elem?, pos, refl, replicate, some, ℕ, ◌∷◌, ◌≡◌, ◌≢◌}
use reliable_udp.Earlier.Header.{header_bytes, read_header, zero_header}
use reliable_udp.Earlier.Memory.{put_at, receive}
use reliable_udp.Earlier.Tcpdc.{Arrival, Tcpdc, TcpdcOutput, tcpdc_round}
use reliable_udp.Earlier.Tcpdc.Slots.{Filled, flags, slots_fill}
use reliable_udp.Outcome.{running}

abbrev ack : List ℕ
ack = header_bytes (record zero_header { sequence_number = 1070 })

abbrev daemon : Tcpdc
daemon = record {
  message_header = replicate 16 0;
  message_body = replicate 1020 0;
  storage_buffer = replicate 64 [];
  flag_array = flags 64 0;
  store = some 63;
  counter_buffer = 1;
  seq_number = 1070;
  counter = 70;
  bytes_received = pos 976;
  file_size = pos 978;
  ack_buffer = replicate 20 0;
}

abbrev two_bytes : Arrival
two_bytes = record { packet = some (5 ∷ 6 ∷ []); memory = []; ack = some ack }

daemon-Filled : Filled 70 daemon
daemon-Filled = record { taken = refl; last = λ h. refl; length_storage = refl; length_body = refl }

slots_fill_example :
    (c' : Tcpdc) × (os : List TcpdcOutput) × (tcpdc_round daemon two_bytes ≡ running c' os)
    × Filled 71 c'
    × (get_elem? c'.storage_buffer 63 ≡ some c'.message_body)
    × ((j : ℕ) → j ≢ 63 → get_elem? c'.storage_buffer j ≡ get_elem? daemon.storage_buffer j)
unfolding receive put_at read_header header_bytes
slots_fill_example =
    slots_fill 70 daemon (5 ∷ 6 ∷ []) [] (some ack) daemon-Filled (omega arith) (λ e. omega arith)
      (omega arith)
