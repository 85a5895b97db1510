-- ===== src/System/Tests.antt =====
-- The programs with a file of two bytes.
use mathlib.Core.Option
use reliable_udp.Base.{
  ◌-ℤ◌, true, List, Option, [], arith, none, refl, replicate, some, ℕ, ◌∷◌, ◌≡◌,
}
use reliable_udp.Client.{
  on_timer, resend_chosen, choose_resend, window_holds, last_slot_from, resend_slot, client_step,
  find_in_buffer, is_fin2, move_on, on_local, send_slot, slot_is, stamped, start_client, transmit,
}
use reliable_udp.Crc.{checksum_of, crc, crc_bytes, crc_step, crctab_at}
use reliable_udp.FtpClient.{header_packet, start_ftp_client}
use reliable_udp.FtpServer.{ftp_server_step, note_first}
use reliable_udp.Outcome.{sends_first, then_on}
use reliable_udp.Packet.{Packet, PacketData, int_bytes, struct_bytes, zero_bytes}
use reliable_udp.Rto.{Timeval, estimate, micros, rto_get}
use reliable_udp.Server.{
  ack_packet, acknowledge, advance, deliver, deliver_at, deliver_found, deliver_slot, find_low,
  find_low_from, find_low_in_buffer, find_low_index, find_low_index_from, hand_out, holds_seq,
  lower, server_step, start_server, take_in,
}
use reliable_udp.Server.Delivery.{ftps_data}
use reliable_udp.System.{
  read_turn, expiry_turn, timer_reads, timer_ticks, client_expires, lose, Move, System,
  client_takes, forward_trouble, forward_turn, ftps_takes, ftps_turn, network, repeat, server_takes,
  server_turn, start_system, system_run, system_step, take_turn,
}
use reliable_udp.System.Calm.{Leads}
use reliable_udp.FtpClient.Transfer.{transfer}
use reliable_udp.System.Chunks.{losses}
use reliable_udp.Timer.{
  timer_step, new_peer, is_zero, take_node, add_peer_to_list, insert_peer, update_list, tick_nodes,
  expire, del_peer_from_list, unlink, hand_over, count_after, peer_exists,
}
use reliable_udp.System.Finish.{IsFinished, can_finish}
use reliable_udp.System.Safety.{system_run-IsRight}
use reliable_udp.System.Written.{IsRight}

abbrev stack : PacketData
stack = record {
  sequence_num = 5;
  ack = 6;
  ackseq = 7;
  bytes_in_packet = 0;
  fin = 9;
  finack = 8;
  stop = 4;
  contents = zero_bytes 900;
}

abbrev name : List ℕ
name = 49 ∷ replicate 19 0

abbrev file : List ℕ
file = 250 ∷ 7 ∷ []

abbrev clock : Timeval
clock = record { sec = 0; usec = 0 }

abbrev junk : Packet
junk = record { msg_header = 0; packetdata = stack; checksum = 1 }

-- Each packet is lost twice.
can_finish_example :
    Leads 3 4
      (losses (λ i. 2) (transfer stack name file))
      (IsFinished file)
      (start_system stack name file clock junk junk)
unfolding is_fin2 zero_bytes
can_finish_example =
    can_finish stack name file 3 4 clock clock junk junk (λ i. 2) (λ e. absurd (omega arith)) refl
      (omega arith) (λ e. absurd (omega arith)) refl

-- The first packet is lost and sent again after a tick; then it arrives twice, and is passed on once.
abbrev moves : List Move
moves =
    client_takes clock
    ∷ forward_trouble lose
    ∷ timer_reads true
    ∷ timer_ticks
    ∷ client_expires clock
    ∷ forward_trouble repeat
    ∷ server_takes
    ∷ server_takes
    ∷ ftps_takes
    ∷ []

abbrev or_start : Option System → System
or_start none = start_system stack name file clock junk junk
or_start (some y) = y

abbrev reached : System
reached = or_start (system_run 3 4 (start_system stack name file clock junk junk) moves)

moves_lead : system_run 3 4 (start_system stack name file clock junk junk) moves ≡ some reached
unfolding timer_step new_peer is_zero take_node add_peer_to_list insert_peer update_list tick_nodes
    expire del_peer_from_list unlink hand_over count_after peer_exists ◌-ℤ◌ read_turn expiry_turn
    on_timer resend_chosen choose_resend window_holds last_slot_from resend_slot system_run
    system_step take_turn server_turn ftps_turn forward_turn network start_system client_step
    on_local send_slot transmit move_on find_in_buffer slot_is rto_get estimate start_client micros
    stamped checksum_of crc crc_bytes crc_step crctab_at struct_bytes int_bytes header_packet
    zero_bytes then_on sends_first server_step take_in deliver start_server holds_seq find_low
    find_low_from lower find_low_index find_low_index_from find_low_in_buffer advance ack_packet
    hand_out acknowledge deliver_at deliver_slot deliver_found ftps_data ftp_server_step note_first
    start_ftp_client Option.bind
moves_lead = refl

system_run-IsRight_example : IsRight file reached.ftps
system_run-IsRight_example =
    system_run-IsRight stack name file 3 4 clock junk junk moves reached (λ e. absurd (omega arith))
      refl moves_lead
