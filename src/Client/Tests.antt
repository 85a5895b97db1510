-- ===== src/Client/Tests.antt =====
-- The sending daemon with one packet out.
use reliable_udp.Base.{
  List, [], arith, get_elem?, if◌then◌else◌, pos, refl, set, some, ℕ, ◌↔◌, ◌∷◌, ◌≡◌, ◌≢◌,
}
use reliable_udp.Client.{
  Client, client_run, from_ftpc, from_timer, on_ack, on_local, on_timer, stamped, start_client,
  to_ftpc, to_timer, to_troll, window_empty, window_holds,
}
use reliable_udp.Client.Acked.{on_ack_lem}
use reliable_udp.Client.Invariant.{Holds, start_client-Holds}
use reliable_udp.Client.Local.{after_local-Holds, on_local_lem}
use reliable_udp.Client.Retransmit.{on_timer_lem}
use reliable_udp.Client.Sent.{SendsOnly, client_run_sends}
use reliable_udp.Outcome.{running}
use reliable_udp.Packet.{PacketData}
use reliable_udp.Rto.{Timeval, rto_get}

abbrev packet : ℕ → PacketData
packet n = record {
  sequence_num = n;
  ack = 0;
  ackseq = 0;
  bytes_in_packet = 1;
  fin = 0;
  finack = 0;
  stop = 0;
  contents = 7 ∷ [];
}

abbrev both : List PacketData
both = packet 0 ∷ packet 1 ∷ []

abbrev clock : Timeval
clock = record { sec = 0; usec = 0 }

abbrev idle : Client
idle = start_client clock

abbrev busy : Client
busy = record idle {
  window = set idle.window 0 (some 0);
  window_pointer = 1;
  buffer = set idle.buffer 0 (some (stamped 5 (packet 0)));
  head = 1;
  rto = rto_get idle.rto idle.rem_time 0;
  start_time = clock;
}

idle-Holds : Holds both 5 0 idle
idle-Holds = start_client-Holds both 5 clock

on_local_lem_example :
    (on_local 5 idle clock (packet 0)
      ≡ running busy (
          to_troll (stamped 5 (packet 0))
          ∷ to_timer 0 (rto_get idle.rto idle.rem_time 0)
          ∷ to_ftpc 0
          ∷ []))
    × Holds both 5 1 busy
unfolding start_client
on_local_lem_example =
    on_local_lem both 5 0 idle (packet 0) idle-Holds refl refl (omega arith) clock

busy-Holds : Holds both 5 1 busy
unfolding start_client
busy-Holds = after_local-Holds both 5 0 idle (packet 0) idle-Holds refl refl (omega arith) clock

on_timer_lem_example :
    (d : PacketData) × (get_elem? both 0 ≡ some d)
    × (on_timer busy clock 0
        ≡ running
            (record busy {
              resend = some 0;
              rto = rto_get busy.rto busy.rem_time 0;
              start_time = clock;
            })
            (to_troll (stamped 5 d) ∷ to_timer 0 (rto_get busy.rto busy.rem_time 0) ∷ []))
    × Holds both 5 1 (record busy {
      resend = some 0;
      rto = rto_get busy.rto busy.rem_time 0;
      start_time = clock;
    })
unfolding start_client window_holds
on_timer_lem_example = on_timer_lem both 5 1 busy busy-Holds clock 0 refl

on_ack_lem_example :
    let (c', os) = on_ack busy 0 in
    ((i r : ℕ)
      → (get_elem? c'.window i ≡ some (some r))
        ↔ ((get_elem? busy.window i ≡ some (some r)) × (r ≢ 0)))
    × (c'.window_pointer ≡ (if window_empty c'.window then 0 else busy.window_pointer))
    × (os ≡ (
        if window_empty c'.window
        then to_timer 0 (pos 0) ∷ to_ftpc 0 ∷ []
        else to_timer 0 (pos 0) ∷ []))
    × Holds both 5 1 c'
on_ack_lem_example = on_ack_lem both 5 1 busy busy-Holds 0

client_run_sends_example : SendsOnly both 5 (
    client_run 5 idle
      ((clock, from_ftpc (packet 0)) ∷ (clock, from_timer 0) ∷ (clock, from_ftpc (packet 1)) ∷ []))
client_run_sends_example =
    client_run_sends both 5 0 idle
      ((clock, from_ftpc (packet 0)) ∷ (clock, from_timer 0) ∷ (clock, from_ftpc (packet 1)) ∷ [])
      idle-Holds (refl, refl, (refl, refl, tt))
