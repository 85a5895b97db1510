-- ===== src/System/Exchange.antt =====
-- One packet goes from daemon to daemon and its acknowledgement comes back, while nothing is lost.
use reliable_udp.Base.{
  List, Option, [], arith, eq→==, false, get_elem?, ne→==, pos, refl, some, true, ℕ, ◌++◌, ◌+◌, ◌<◌,
  ◌∙◌, ap, replicate, ◌∷◌, ◌≡◌, ◌≢◌, ◌≤◌, ◌⊎◌,
}
use reliable_udp.Client.{
  Client, client_step, from_troll, is_fin2, on_finack, on_request, stamped, to_ftpc, to_timer,
}
use reliable_udp.Client.Invariant.{Holds}
use reliable_udp.Client.Local.{after_local, on_local_lem}
use reliable_udp.Crc.{checksum_of}
use reliable_udp.EndToEnd.Lossless.{stamped-IsNext}
use reliable_udp.EndToEnd.Signals.{alone_acked}
use reliable_udp.FtpClient.{FtpClient}
use reliable_udp.FtpServer.{FtpServer}
use reliable_udp.Outcome.{exited, sends_first}
use reliable_udp.Packet.{Packet, PacketData}
use reliable_udp.Rto.{Eighths, Timeval, rto_get, timeval_diff}
use reliable_udp.EndToEnd.Retry.{window_holds-set}
use reliable_udp.Timer.{PeerList}
use reliable_udp.System.Lost.{
  IsOut, IsTimed, cancel_alone, lost_again, only_timer, out, start_alone, time-positive,
}
use reliable_udp.Server.{Server, ack_packet, finack_packet, finish, hand_out, seq_of}
use reliable_udp.Server.Delivery.{ftps_data}
use reliable_udp.Server.Lossless.{IsIdle, IsNext, goes_on, goes_on-IsIdle, last_goes, next_goes}
use reliable_udp.System.{
  System, client_hears, client_takes, hear_turn, server_takes, server_turn, system_step, take_turn,
  timer_reads, read_turn,
}
use reliable_udp.System.Hearing.{IsPolite, no_time, not_two, two}
use reliable_udp.System.Calm.{quiet, ended, Leads, step}

module _ (to_server to_client : ℕ) where
  module _ (received : Packet) (all : List PacketData) (now : Timeval) (n : ℕ) (c : Client)
      (s : Server) (d : PacketData) (v : Holds all to_server n c) (empty : c.window_pointer ≡ 0)
      (timed : IsTimed now c) (idle : IsIdle n s) (polite : IsPolite received s)
      (at : get_elem? all n ≡ some d) (is : d.sequence_num ≡ n) (short : d.bytes_in_packet ≤ 900)
      (small : n < 1000) (f : Option FtpClient) (signals : List ℕ) (ds passed : List PacketData)
      (w : FtpServer ⊎ List ℕ) (l : PeerList) (no_timers : l.peers ≡ []) (lost : List ℕ)
      (P : System → Type 0) where
    abbrev sent : Client
    sent = after_local all to_server n c d v is at (omega arith) now

    sent-IsOut : IsOut all to_server n now sent
    sent-IsOut = record {
      holds = (on_local_lem all to_server n c d v is at (omega arith) now).1;
      alone = omega arith;
      waits = rw is (window_holds-set c.window c.window_pointer n (omega (arith, v.length_window)));
      timed = record {
        positive = time-positive now c d.sequence_num timed;
        measured = timed.measured;
      };
      started = refl;
    }

    packet-IsNext : IsNext n (stamped to_server d)
    packet-IsNext = stamped-IsNext to_server n d is short (omega arith)

    takes :
        system_step to_server to_client (quiet f signals (d ∷ ds) c s passed w l) (client_takes now)
        ≡ some (
            out to_server to_client all now n d at is f s ds passed w lost P
              (signals ++ 0 ∷ [])
              sent
              l
              (rto_get c.rto c.rem_time n))
    unfolding system_step take_turn client_step
    takes = rw ((on_local_lem all to_server n c d v is at (omega arith) now).0, empty) refl

    module _ (goes : d.fin ≢ 1) where
      abbrev served : Server
      served = goes_on to_client n s (stamped to_server d) idle packet-IsNext

      abbrev reply : Packet
      reply = ack_packet to_client s.request (seq_of (stamped to_server d))

      serves :
          (signals : List ℕ) (c' : Client) (l' : PeerList) (t : Eighths)
          → system_step to_server to_client
              (out to_server to_client all now n d at is f s ds passed w lost P signals c' l' t)
              server_takes
            ≡ some (record (quiet f signals ds c' served (passed ++ d ∷ []) w l') {
              backward = reply ∷ [];
              started = (n, t) ∷ [];
            })
      unfolding system_step server_turn
      serves signals c' l' t =
          rw
            (next_goes to_client n s (stamped to_server d) idle packet-IsNext small
              (unfold stamped in goes))
            (unfold hand_out ftps_data stamped in refl)

      reply_acks :
          (checksum_of reply.packetdata ≡ reply.checksum)
          × (reply.packetdata.ack ≡ 1)
          × (reply.packetdata.finack ≢ 1)
          × (reply.packetdata.ackseq ≡ n)
      unfolding ack_packet stamped
      reply_acks = (refl, refl, polite.no_finack, is)

      served-IsPolite : IsPolite received served
      unfolding ack_packet
      served-IsPolite = record {
        no_finack = polite.no_finack;
        other_text = polite.other_text;
        unset = polite.unset;
      }

      -- The packet is lost `k` times, arrives and is passed on; its timer is cancelled, and two
      -- signals to go on reach the file client.
      pub exchange :
          (k : ℕ)
          → ((c' : Client) (s' : Server) (l' : PeerList)
              → Holds all to_server (n + 1) c'
              → c'.window_pointer ≡ 0
              → IsTimed now c'
              → IsIdle (n + 1) s'
              → IsPolite received s'
              → l'.peers ≡ []
              → Leads to_server to_client lost P
                  (quiet f ((signals ++ 0 ∷ []) ++ 0 ∷ []) ds c' s' (passed ++ d ∷ []) w l'))
          → Leads to_server to_client
              (replicate k n ++ lost)
              P
              (quiet f signals (d ∷ ds) c s passed w l)
      unfolding system_step hear_turn read_turn
      exchange k next =
          step to_server to_client (replicate k n ++ lost) P _ (client_takes now) _ tt takes (
            lost_again to_server to_client all now n d at is f s ds passed w lost P k
              (signals ++ 0 ∷ []) sent l (rto_get c.rto c.rem_time n) no_timers
              (time-positive now c n timed) sent-IsOut
              (λ c₁ l₁ t no_timers₁ positive v₁.
                let (right, acks, no_fin, number) = reply_acks in
                let (c', e, v', empty', same_rto, measured) =
                  alone_acked all to_server (n + 1) c₁ now reply reply v₁.holds v₁.alone right acks
                    no_fin (omega arith) in
                step to_server to_client lost P _ server_takes _ tt
                  (serves (signals ++ 0 ∷ []) c₁ l₁ t)
                  (step to_server to_client lost P _ (client_hears now)
                    (record (quiet f ((signals ++ 0 ∷ []) ++ 0 ∷ []) ds c' served (passed ++ d ∷ [])
                      w l₁) { started = (n, t) ∷ (n, pos 0) ∷ [] })
                    tt (rw (not_two reply no_fin, e, number) refl)
                    (step to_server to_client lost P _ (timer_reads true)
                      (record (quiet f ((signals ++ 0 ∷ []) ++ 0 ∷ []) ds c' served
                        (passed ++ d ∷ []) w (only_timer l₁ n t)) { started = (n, pos 0) ∷ [] })
                      tt (rw (start_alone l₁ n t no_timers₁ positive) refl)
                      (step to_server to_client lost P _ (timer_reads true) _ tt
                        (rw (cancel_alone l₁ n t) refl)
                        (next c' served (record { num_peers = l₁.num_peers + 1; peers = [] }) v'
                          empty'
                          (record {
                            positive = rw same_rto v₁.timed.positive;
                            measured = measured ∙ ap (timeval_diff now) v₁.started ∙ no_time now;
                          })
                          (goes_on-IsIdle to_client n s (stamped to_server d) idle packet-IsNext)
                          served-IsPolite refl))))))

    module _ (last : d.fin ≡ 1) where
      abbrev finack : Packet
      finack = finack_packet to_client s.request (seq_of (stamped to_server d))

      serves_last :
          (signals : List ℕ) (c' : Client) (l' : PeerList) (t : Eighths)
          → system_step to_server to_client
              (out to_server to_client all now n d at is f s ds passed w lost P signals c' l' t)
              server_takes
            ≡ some
                (record (ended f signals ds
                  (passed ++ d ∷ received.packetdata ∷ [])
                  w
                  ((n, t) ∷ [])
                  l') { client = some c'; backward = finack ∷ finack ∷ [] })
      unfolding system_step server_turn
      serves_last signals c' l' t =
          rw
            (last_goes to_client n s (stamped to_server d) idle packet-IsNext small
              (unfold stamped in last))
            (unfold hand_out ftps_data stamped finish in rw polite.unset refl)

      finack_ends :
          (checksum_of finack.packetdata ≡ finack.checksum)
          × (finack.packetdata.ack ≡ 0)
          × (finack.packetdata.finack ≡ 1)
          × (is_fin2 finack.packetdata.contents ≡ false)
      unfolding finack_packet
      finack_ends = (refl, refl, refl, polite.other_text)

      client_ends :
          (c' : Client)
          → client_step to_server c' now (from_troll finack finack)
            ≡ exited (to_ftpc 1 ∷ to_timer finack.packetdata.ackseq (pos 0) ∷ [])
      unfolding client_step on_request on_finack sends_first
      client_ends c' =
          let (right, no_ack, ends, other) = finack_ends in
          rw
            (
              eq→== (checksum_of finack.packetdata) finack.checksum right,
              ne→== finack.packetdata.ack 1 (λ e. absurd (omega arith)),
              eq→== finack.packetdata.finack 1 ends,
              other,
            )
            refl

      -- The last packet is lost `k` times, arrives and is passed on, and both daemons exit.
      pub exchange_last :
          (k : ℕ)
          → ((started : List (ℕ × Eighths)) (l' : PeerList)
              → Leads to_server to_client lost P (
                  ended f
                    ((signals ++ 0 ∷ []) ++ 1 ∷ [])
                    ds
                    (passed ++ d ∷ received.packetdata ∷ [])
                    w
                    started
                    l'))
          → Leads to_server to_client
              (replicate k n ++ lost)
              P
              (quiet f signals (d ∷ ds) c s passed w l)
      unfolding system_step hear_turn
      exchange_last k next =
          step to_server to_client (replicate k n ++ lost) P _ (client_takes now) _ tt takes (
            lost_again to_server to_client all now n d at is f s ds passed w lost P k
              (signals ++ 0 ∷ []) sent l (rto_get c.rto c.rem_time n) no_timers
              (time-positive now c n timed) sent-IsOut
              (λ c₁ l₁ t no_timers₁ positive v₁.
                let (right, no_ack, ends, other) = finack_ends in
                step to_server to_client lost P _ server_takes _ tt
                  (serves_last (signals ++ 0 ∷ []) c₁ l₁ t)
                  (step to_server to_client lost P _ (client_hears now)
                    (ended f ((signals ++ 0 ∷ []) ++ 1 ∷ []) ds
                      (passed ++ d ∷ received.packetdata ∷ []) w
                      ((n, t) ∷ (finack.packetdata.ackseq, pos 0) ∷ []) l₁)
                    tt (rw (two finack right ends, client_ends c₁) refl)
                    (next ((n, t) ∷ (finack.packetdata.ackseq, pos 0) ∷ []) l₁))))
