-- ===== src/EndToEnd/Tests.antt =====
-- A transfer of a file of two bytes.
use reliable_udp.Base.{
  List, [], arith, length, length-replicate, inl, inr, quot_ℤ, refl, replicate, some, take, times_ℤ,
  true, ℕ, ℤ, ◌++◌, ◌+ℤ◌, ◌-ℤ◌, ◌∷◌, ◌≡◌,
}
use reliable_udp.Client.{
  Client, ClientEvent, ClientOutput, client_run, client_step, find_in_buffer, from_ftpc, move_on,
  on_local, on_timer, send_slot, slot_is, stamped, start_client, to_ftpc, to_timer, to_troll,
  transmit,
}
use reliable_udp.Client.Invariant.{start_client-Holds}
use reliable_udp.Client.Sent.{InOrder}
use reliable_udp.Crc.{checksum_of, crc, crc_bytes, crc_step, crctab_at}
use reliable_udp.EndToEnd.LongFile.{long_transfer_faults}
use reliable_udp.EndToEnd.Lossless.{all_sent, lossless_transfer}
use reliable_udp.EndToEnd.Overrun.{IsAck, overrun, overrun_events, section_of}
use reliable_udp.EndToEnd.Signals.{Obeys}
use reliable_udp.EndToEnd.Retry.{IsReported, sent_is_retried}
use reliable_udp.EndToEnd.Whole.{Carried, outputs, whole_transfer}
use reliable_udp.EndToEnd.Writing.{transfer_written}
use reliable_udp.FtpClient.{
  FtpClient, ftp_client_run, start_ftp_client, chunk_packet, filled_data, fin_packet, header_packet,
}
use reliable_udp.FtpClient.Transfer.{chunks, transfer}
use reliable_udp.FtpServer.{ftp_server_run, start_ftp_server}
use reliable_udp.Outcome.{fault, exited, running, sends_first, then_on}
use reliable_udp.Packet.{Packet, PacketData, int_bytes, struct_bytes, zero_bytes}
use reliable_udp.Rto.{Timeval, estimate, micros, rto_get}
use reliable_udp.Server.{
  ServerOutput, ack_packet, acknowledge, advance, deliver, deliver_at, deliver_found, deliver_slot,
  finack_packet, find_low, find_low_from, find_low_in_buffer, find_low_index, find_low_index_from,
  finish, hand_out, holds_seq, lower, server_run, server_step, start_server, take_in,
}
use reliable_udp.Server.Delivery.{ftps_data}
use reliable_udp.Timer.{PeerList, message, timer_step}
use reliable_udp.Timer.Expiry.{quiet_rounds, rounds_left}

abbrev stack : PacketData
stack = record {
  sequence_num = 5;
  ack = 6;
  ackseq = 7;
  bytes_in_packet = 0;
  fin = 9;
  finack = 8;
  stop = 4;
  contents = zero_bytes 900;
}

abbrev name : List ℕ
name = 49 ∷ 46 ∷ replicate 18 0

abbrev file : List ℕ
file = 250 ∷ 7 ∷ []

abbrev header : PacketData
header = header_packet stack name file

abbrev chunk : PacketData
chunk = chunk_packet header file

abbrev last : PacketData
last = fin_packet chunk

abbrev clock : Timeval
clock = record { sec = 0; usec = 0 }

abbrev junk : Packet
junk = record { msg_header = 0; packetdata = stack; checksum = 1 }

-- The chunk overtakes the header, which arrives twice; a damaged packet arrives too.
abbrev arrived : List Packet
arrived =
    stamped 3 chunk
    ∷ junk
    ∷ stamped 3 header
    ∷ stamped 3 header
    ∷ stamped 3 last
    ∷ stamped 3 last
    ∷ []

abbrev events : List (Timeval × ClientEvent)
events = (clock, from_ftpc header) ∷ (clock, from_ftpc chunk) ∷ (clock, from_ftpc last) ∷ []

abbrev sent : List ClientOutput
sent = outputs (client_run 3 (start_client clock) events)

abbrev passed : List ServerOutput
passed = outputs (server_run 4 (start_server junk junk) arrived)

server_exits : server_run 4 (start_server junk junk) arrived ≡ exited passed
unfolding server_run server_step take_in deliver start_server stamped checksum_of crc crc_bytes
    crc_step crctab_at struct_bytes int_bytes header_packet chunk_packet fin_packet filled_data
    zero_bytes then_on sends_first holds_seq find_low find_low_from lower find_low_index
    find_low_index_from find_low_in_buffer advance ack_packet finack_packet hand_out acknowledge
    finish deliver_at deliver_slot deliver_found
server_exits = refl

in_order : InOrder (transfer stack name file) 0 events
unfolding transfer chunks header_packet chunk_packet fin_packet
in_order = (refl, refl, (refl, refl, (refl, refl, tt)))

carried : Carried sent arrived
unfolding client_run client_step on_local send_slot transmit move_on find_in_buffer slot_is rto_get
    estimate start_client micros quot_ℤ times_ℤ ◌+ℤ◌ ◌-ℤ◌ stamped checksum_of crc crc_bytes crc_step
    crctab_at struct_bytes int_bytes header_packet chunk_packet fin_packet filled_data zero_bytes
    then_on sends_first
carried = (
  (λ e. inr (inl refl)),
  (
    (λ e. absurd (omega arith)),
    (
      (λ e. inl refl),
      ((λ e. inl refl), ((λ e. inr (inr (inl refl))), ((λ e. inr (inr (inl refl))), tt))),
    ),
  ),
)

whole_transfer_example : ftp_server_run start_ftp_server (ftps_data passed) ≡ exited file
whole_transfer_example =
    whole_transfer stack name file 3 4 clock events junk junk arrived passed
      (λ e. absurd (omega arith)) refl in_order carried server_exits

transfer_written_example :
    ftp_server_run start_ftp_server (transfer stack name file ++ chunk ∷ [])
    ≡ exited (take stack.bytes_in_packet header.contents ++ file)
transfer_written_example =
    transfer_written stack name file (chunk ∷ []) (λ e. absurd (omega arith)) (omega arith)

lossless_transfer_example :
    (os : List ServerOutput) × (server_run 4
        (start_server junk junk)
        (all_sent 3 (transfer stack name file))
      ≡ exited os)
    × (ftp_server_run start_ftp_server (ftps_data os) ≡ exited file)
lossless_transfer_example =
    lossless_transfer stack name file 3 4 junk junk (λ e. absurd (omega arith)) refl (omega arith)

abbrev no_timers : PeerList
no_timers = record { num_peers = 0; peers = [] }

sent_is_retried_example :
    (c' : Client) × (c'' : Client) × (t : ℤ) × (t' : ℤ) × (stop : ℕ) × (l' : PeerList) × (ids : List
      ℕ)
    × (l'' : PeerList) × (on_local 3 (start_client clock) clock header
        ≡ running c' (to_troll (stamped 3 header) ∷ to_timer 0 t ∷ to_ftpc stop ∷ []))
    × (timer_step no_timers (message true 0 21000 t) ≡ some ([], l'))
    × (quiet_rounds (rounds_left l'.peers) l' ≡ some (ids, l''))
    × IsReported 0 ids
    × (on_timer c' clock 0 ≡ running c'' (to_troll (stamped 3 header) ∷ to_timer 0 t' ∷ []))
unfolding start_client transfer header_packet
sent_is_retried_example =
    sent_is_retried (transfer stack name file) 3 0 (start_client clock) header clock clock no_timers
      21000 0 (start_client-Holds (transfer stack name file) 3 clock) refl refl (omega arith) refl
      (omega arith) (omega arith) (omega arith)

-- A file of so many bytes.
unfoldable sized_file : ℕ → List ℕ
sized_file n = replicate n 7

length-sized_file : (n : ℕ) → length (sized_file n) ≡ n
unfolding sized_file
length-sized_file n = length-replicate n 7

-- 22 full chunks, and acknowledgements of the first two packets.
abbrev long_file : List ℕ
long_file = sized_file 19800

abbrev reply : ℕ → Packet
reply s = stamped 3 (record stack { ack = 1; ackseq = s })

reply-IsAck : (s : ℕ) → IsAck (reply s) s
unfolding stamped
reply-IsAck s = (refl, refl, (λ e. absurd (omega arith)), refl)

overrun_example :
    ((c : FtpClient) × (ftp_client_run (start_ftp_client stack name long_file) (replicate 22 0)
        ≡ running c (section_of (transfer stack name long_file) 1 22)))
    × InOrder
        (transfer stack name long_file)
        0
        (overrun_events (transfer stack name long_file) (λ i. clock) (reply 0) junk (reply 1) junk)
    × Obeys 3
        (overrun_events (transfer stack name long_file) (λ i. clock) (reply 0) junk (reply 1) junk)
        (start_client clock)
        1
    × (client_run 3 (start_client clock) (
          overrun_events (transfer stack name long_file) (λ i. clock) (reply 0) junk (reply 1) junk)
        ≡ fault)
overrun_example =
    overrun stack name long_file 3 clock (λ i. clock) (reply 0) junk (reply 1) junk
      (omega (arith, length-sized_file 19800)) (reply-IsAck 0) (reply-IsAck 1)

long_transfer_faults_example :
    server_run 4 (start_server junk junk) (all_sent 3 (transfer stack name (sized_file 898200)))
    ≡ fault
long_transfer_faults_example =
    long_transfer_faults stack name (sized_file 898200) 3 4 junk junk (λ e. absurd (omega arith))
      (omega arith) (omega (arith, length-sized_file 898200))
