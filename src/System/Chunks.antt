-- ===== src/System/Chunks.antt =====
-- The file client and the daemons from one signal to the end of the file.
use reliable_udp.Base.{
  List, [], ap, append_assoc, arith, drop, drop-cons, length, length-drop, length-take-le, none,
  refl, replicate, some, subst, subst₂, suc, sym, take, zero, ℕ, ◌++◌, ◌+◌, ◌/◌, ◌<◌, ◌∙◌, ◌∷◌, ◌≡◌,
  ◌≢◌, ◌≤◌, ◌⊎◌,
}
use reliable_udp.Client.{Client}
use reliable_udp.Client.Invariant.{Holds}
use reliable_udp.FtpClient.{
  chunk_packet, fin_packet, ftp_client_step, seen, send_chunk, signal_round,
}
use reliable_udp.FtpClient.Transfer.{chunks, send_chunk-last, send_chunk-more}
use reliable_udp.FtpServer.{FtpServer}
use reliable_udp.Packet.{Packet, PacketData}
use reliable_udp.Rto.{Eighths, Timeval}
use reliable_udp.Timer.{PeerList}
use reliable_udp.System.Lost.{IsTimed}
use reliable_udp.Server.{Server}
use reliable_udp.Server.Lossless.{IsIdle}
use reliable_udp.System.{System, ftpc_reads, ftpc_turn, system_step}
use reliable_udp.System.Exchange.{exchange, exchange_last}
use reliable_udp.System.Hearing.{IsPolite}
use reliable_udp.System.Calm.{quiet, ended, Leads, step}

-- Each of these packets is lost as often as `times` says of its number.
abbrev pub losses : (ℕ → ℕ) → List PacketData → List ℕ
losses times [] = []
losses times (d ∷ ds) = replicate (times d.sequence_num) d.sequence_num ++ losses times ds

replicate-snoc : (j v : ℕ) → replicate j v ++ v ∷ [] ≡ replicate (suc j) v
replicate-snoc zero v = refl
replicate-snoc (suc j) v = ap (◌∷◌ v) (replicate-snoc j v)

two_more : (j v : ℕ) → (replicate j v ++ v ∷ []) ++ v ∷ [] ≡ replicate (suc (suc j)) v
two_more j v = ap (λ x. x ++ v ∷ []) (replicate-snoc j v) ∙ replicate-snoc (suc j) v

module _ (to_server to_client : ℕ) where
  ftpc_last :
      (sending : PacketData) (unread : List ℕ) (signals : List ℕ) (c : Client) (s : Server)
      (passed : List PacketData) (w : FtpServer ⊎ List ℕ) (l : PeerList)
      → length unread < 900
      → system_step to_server to_client
          (quiet
            (some (record { sending = sending; unread = unread }))
            (0 ∷ signals)
            []
            c
            s
            passed
            w
            l)
          ftpc_reads
        ≡ some (quiet none signals (chunks 0 sending unread) c s passed w l)
  unfolding system_step ftpc_turn ftp_client_step signal_round send_chunk seen
  ftpc_last sending unread signals c s passed w l h =
      rw (send_chunk-last (record { sending = sending; unread = unread }) h) refl

  ftpc_more :
      (sending : PacketData) (unread : List ℕ) (signals : List ℕ) (c : Client) (s : Server)
      (passed : List PacketData) (w : FtpServer ⊎ List ℕ) (l : PeerList)
      → 900 ≤ length unread
      → let next = chunk_packet sending (take 900 unread) in
        system_step to_server to_client
          (quiet
            (some (record { sending = sending; unread = unread }))
            (0 ∷ signals)
            []
            c
            s
            passed
            w
            l)
          ftpc_reads
        ≡ some (
            quiet
              (some (record { sending = next; unread = drop 900 unread }))
              signals
              (next ∷ [])
              c
              s
              passed
              w
              l)
  unfolding system_step ftpc_turn ftp_client_step signal_round send_chunk seen
  ftpc_more sending unread signals c s passed w l h =
      rw (send_chunk-more (record { sending = sending; unread = unread }) h) refl

  module _ (received : Packet) (all : List PacketData) (now : Timeval) (times : ℕ → ℕ)
      (P : System → Type 0) (w : FtpServer ⊎ List ℕ) where
    pub run_chunks :
        (k : ℕ) (sending : PacketData) (unread : List ℕ) (n j : ℕ) (c : Client) (s : Server)
        (passed : List PacketData) (l : PeerList)
        → Holds all to_server n c
        → c.window_pointer ≡ 0
        → IsTimed now c
        → IsIdle n s
        → IsPolite received s
        → l.peers ≡ []
        → length unread / 900 ≡ k
        → sending.sequence_num + 1 ≡ n
        → sending.fin ≢ 1
        → chunks k sending unread ≡ drop n all
        → n + k + 1 < 1000
        → ((signals : List ℕ) (started : List (ℕ × Eighths)) (l' : PeerList)
            → Leads to_server to_client [] P (
                ended none signals []
                  (passed ++ (chunks k sending unread ++ received.packetdata ∷ []))
                  w
                  started
                  l'))
        → Leads to_server to_client (losses times (chunks k sending unread)) P (
            quiet
              (some (record { sending = sending; unread = unread }))
              (replicate (suc j) 0)
              []
              c
              s
              passed
              w
              l)
    unfolding chunks
    run_chunks zero sending unread n j c s passed l v empty timed idle polite no_timers full number
          goes rest small next =
        let last = chunk_packet sending (take 900 unread) in
        let is : last.sequence_num ≡ n = unfold chunk_packet in number in
        let is' : (fin_packet last).sequence_num ≡ n + 1 =
          unfold fin_packet chunk_packet in omega arith in
        let (at, rest') = drop-cons all (fin_packet last ∷ []) n last rest in
        let (at', rest'') = drop-cons all [] (n + 1) (fin_packet last) rest' in
        let after_last = replicate (times (n + 1)) (n + 1) ++ [] in
        subst₂
          (λ a b.
            Leads to_server to_client (replicate (times a) a ++ (replicate (times b) b ++ [])) P (
              quiet (some (record { sending = sending; unread = unread })) (replicate (suc j) 0) []
                c s passed w l))
          (sym is) (sym is')
          (step to_server to_client (replicate (times n) n ++ after_last) P _ ftpc_reads
            (quiet none (replicate j 0) (last ∷ fin_packet last ∷ []) c s passed w l) tt
            (ftpc_last sending unread (replicate j 0) c s passed w l (omega arith))
            (exchange to_server to_client received all now n c s last v empty timed idle polite at
              is (unfold chunk_packet in length-take-le 900 unread) (omega arith) none
              (replicate j 0) (fin_packet last ∷ []) passed w l no_timers after_last P
              (unfold chunk_packet in goes) (times n)
              (λ c' s' l' v' empty' timed' idle' polite' no_timers'.
                exchange_last to_server to_client received all now (n + 1) c' s' (fin_packet last)
                  v' empty' timed' idle' polite' at' is' (unfold fin_packet in omega arith)
                  (omega arith) none ((replicate j 0 ++ 0 ∷ []) ++ 0 ∷ []) [] (passed ++ last ∷ [])
                  w l' no_timers' [] P (unfold fin_packet in refl) (times (n + 1))
                  (λ started l''.
                    subst
                      (λ x. Leads to_server to_client [] P (
                        ended none ((((replicate j 0 ++ 0 ∷ []) ++ 0 ∷ []) ++ 0 ∷ []) ++ 1 ∷ []) []
                          x w started l''))
                      (sym (
                        append_assoc passed (last ∷ [])
                          (fin_packet last ∷ received.packetdata ∷ [])))
                      (next ((((replicate j 0 ++ 0 ∷ []) ++ 0 ∷ []) ++ 0 ∷ []) ++ 1 ∷ []) started
                        l'')))))
    run_chunks (suc k) sending unread n j c s passed l v empty timed idle polite no_timers full
          number goes rest small next =
        let sent = chunk_packet sending (take 900 unread) in
        let is : sent.sequence_num ≡ n = unfold chunk_packet in number in
        let (at, rest') = drop-cons all (chunks k sent (drop 900 unread)) n sent rest in
        let later = losses times (chunks k sent (drop 900 unread)) in
        subst
          (λ a. Leads to_server to_client (replicate (times a) a ++ later) P (
            quiet (some (record { sending = sending; unread = unread })) (replicate (suc j) 0) [] c
              s passed w l))
          (sym is)
          (step to_server to_client (replicate (times n) n ++ later) P _ ftpc_reads
            (quiet (some (record { sending = sent; unread = drop 900 unread })) (replicate j 0)
              (sent ∷ []) c s passed w l)
            tt (ftpc_more sending unread (replicate j 0) c s passed w l (omega arith))
            (exchange to_server to_client received all now n c s sent v empty timed idle polite at
              is (unfold chunk_packet in length-take-le 900 unread) (omega arith)
              (some (record { sending = sent; unread = drop 900 unread })) (replicate j 0) [] passed
              w l no_timers later P (unfold chunk_packet in goes) (times n)
              (λ c' s' l' v' empty' timed' idle' polite' no_timers'.
                subst
                  (λ x. Leads to_server to_client later P (
                    quiet (some (record { sending = sent; unread = drop 900 unread })) x [] c' s'
                      (passed ++ sent ∷ []) w l'))
                  (sym (two_more j 0))
                  (run_chunks k sent (drop 900 unread) (n + 1) (suc j) c' s' (passed ++ sent ∷ [])
                    l' v' empty' timed' idle' polite' no_timers'
                    (omega (arith, length-drop 900 unread)) (unfold chunk_packet in omega arith)
                    (unfold chunk_packet in goes) rest' (omega arith)
                    (λ signals started l''.
                      subst
                        (λ x.
                          Leads to_server to_client [] P (ended none signals [] x w started l''))
                        (sym (
                          append_assoc passed (sent ∷ [])
                            (chunks k sent (drop 900 unread) ++ received.packetdata ∷ [])))
                        (next signals started l''))))))
