-- ===== src/System/Finish.antt =====
-- The programs can come to their ends with the file written.
use reliable_udp.Base.{
  List, [], ap, arith, inl, inr, length, none, refl, replicate, subst, some, sym, take, ℕ, false,
  ◌++◌, ◌/◌, ◌<◌, ◌∙◌, ◌∷◌, ◌≡◌, ◌≢◌,
}
use reliable_udp.Client.{is_fin2, start_client}
use reliable_udp.Client.Invariant.{start_client-Holds}
use reliable_udp.EndToEnd.Writing.{transfer_written}
use reliable_udp.FtpClient.{header_packet, start_ftp_client}
use reliable_udp.FtpClient.Transfer.{full_chunks, chunks, transfer}
use reliable_udp.FtpServer.{FtpServer, ftp_server_run, ftp_server_step, start_ftp_server}
use reliable_udp.Outcome.{Outcome, exited, fault, running, then_on, then_on-idle}
use reliable_udp.Packet.{Packet, PacketData}
use reliable_udp.Rto.{Eighths, Timeval}
use reliable_udp.Timer.{PeerList}
use reliable_udp.System.Lost.{IsTimed}
use reliable_udp.Server.{start_server}
use reliable_udp.Server.Lossless.{start_server-IsIdle}
use reliable_udp.System.{System, ftps_takes, ftps_turn, start_system, system_step}
use reliable_udp.System.Exchange.{exchange}
use reliable_udp.System.Hearing.{IsPolite}
use reliable_udp.System.Calm.{quiet, ended, Leads, here, step}
use reliable_udp.System.Written.{Extends, ftp_server_step-Extends}
use reliable_udp.System.Chunks.{losses, run_chunks}

-- All four programs have exited, and the file server has closed this file.
abbrev pub IsFinished : List ℕ → System → Type 0
IsFinished file y = (y.ftpc ≡ none) × (y.client ≡ none) × (y.server ≡ none) × (y.ftps ≡ inr file)

module _ (to_server to_client : ℕ) where
  -- The file server reads what it has been passed.
  ftps_ends :
      (ds : List PacketData) (signals : List ℕ) (s : FtpServer) (file : List ℕ)
      (started : List (ℕ × Eighths)) (l : PeerList)
      → ftp_server_run s ds ≡ exited file
      → Leads to_server to_client [] (IsFinished file) (ended none signals [] ds (inl s) started l)
  unfolding ftp_server_run
  ftps_ends [] signals s file started l e = absurd (cc)
  ftps_ends (d ∷ ds) signals s file started l e =
      goes (ftp_server_step s d) refl (ftp_server_step-Extends s d)
        (λ t. ftps_ends ds signals t file started l) e
    where
      goes :
          (o : Outcome FtpServer ℕ)
          → ftp_server_step s d ≡ o
          → Extends s.written o
          → ((t : FtpServer)
              → ftp_server_run t ds ≡ exited file
              → Leads to_server to_client []
                  (IsFinished file)
                  (ended none signals [] ds (inl t) started l))
          → then_on o (λ t. ftp_server_run t ds) ≡ exited file
          → Leads to_server to_client []
              (IsFinished file)
              (ended none signals [] (d ∷ ds) (inl s) started l)
      goes (running t os) at (quiet, more) rest e =
          let again : ftp_server_run t ds ≡ exited file =
            sym (
              ap (λ x. then_on (running t x) (λ t. ftp_server_run t ds)) quiet
              ∙ then_on-idle t (λ t. ftp_server_run t ds))
            ∙ e in
          step to_server to_client [] (IsFinished file) _ ftps_takes
            (ended none signals [] ds (inl t) started l) tt
            (unfold system_step in unfold ftps_turn in rw at refl) (rest t again)
      goes (exited bytes) at same rest e =
          let closed : ◌≡◌ {A = Outcome FtpServer ℕ} (exited bytes) (exited file) =
            unfold then_on in e in
          step to_server to_client [] (IsFinished file) _ ftps_takes
            (ended none signals [] ds (inr bytes) started l) tt
            (unfold system_step in unfold ftps_turn in rw at refl)
            (here to_server to_client (IsFinished file)
              (ended none signals [] ds (inr bytes) started l) (refl, refl, refl, (cc)))
      goes fault at same rest e =
          let closed : ◌≡◌ {A = Outcome FtpServer ℕ} fault (exited file) = unfold then_on in e in
          absurd (cc)

start_server-IsPolite :
    (request received : Packet)
    → request.packetdata.finack ≢ 1
    → is_fin2 request.packetdata.contents ≡ false
    → IsPolite received (start_server request received)
unfolding start_server
start_server-IsPolite request received ne other = record {
  no_finack = ne;
  other_text = other;
  unset = refl;
}

start_client-IsTimed : (now unset : Timeval) → IsTimed now (start_client unset)
unfolding start_client
start_client-IsTimed now unset = record { positive = omega arith; measured = refl }

-- For a file of fewer than 998 * 900 bytes, and for any number of times that each packet of the
-- transfer is to be lost on its way to the receiving daemon, there are moves in which the network
-- loses just these packets and does nothing else, and after which all four programs have exited and
-- the file server has closed exactly the file, if the stack left no FIN flag and a zero length in
-- the client's first packet, and no FINACK flag and not the text FIN2 in the receiving daemon's
-- request_packet.
pub can_finish :
    (stack : PacketData) (name file : List ℕ) (to_server to_client : ℕ) (unset now : Timeval)
    (request received : Packet) (times : ℕ → ℕ)
    → stack.fin ≢ 1
    → stack.bytes_in_packet ≡ 0
    → length file / 900 < 998
    → request.packetdata.finack ≢ 1
    → is_fin2 request.packetdata.contents ≡ false
    → Leads to_server to_client
        (losses times (transfer stack name file))
        (IsFinished file)
        (start_system stack name file unset request received)
unfolding start_system start_ftp_client transfer
can_finish stack name file to_server to_client unset now request received times ne z small polite
      other =
    let all = transfer stack name file in
    let head = header_packet stack name file in
    let is : head.sequence_num ≡ 0 = unfold header_packet in refl in
    let later = losses times (chunks (full_chunks file) head file) in
    subst
      (λ a. Leads to_server to_client (replicate (times a) a ++ later) (IsFinished file) (
        quiet (some (record { sending = head; unread = file })) [] (head ∷ []) (start_client unset)
          (start_server request received) [] (inl start_ftp_server)
          (record { num_peers = 0; peers = [] })))
      (sym is)
      (exchange to_server to_client received all now 0 (start_client unset)
        (start_server request received) head (start_client-Holds all to_server unset)
        (unfold start_client in refl) (start_client-IsTimed now unset)
        (start_server-IsIdle request received) (start_server-IsPolite request received polite other)
        refl is (unfold header_packet in omega arith) (omega arith)
        (some (record { sending = head; unread = file })) [] [] [] (inl start_ftp_server)
        (record { num_peers = 0; peers = [] }) refl later (IsFinished file)
        (unfold header_packet in ne) (times 0)
        (λ c s l v empty timed idle polite' no_timers.
          run_chunks to_server to_client received all now times (IsFinished file)
            (inl start_ftp_server) (full_chunks file) head file 1 1 c s (head ∷ []) l v empty timed
            idle polite' no_timers refl (unfold header_packet in refl) (unfold header_packet in ne)
            refl (omega arith)
            (λ signals started l'.
              ftps_ends to_server to_client (all ++ received.packetdata ∷ []) signals
                start_ftp_server file started l'
                (transfer_written stack name file (received.packetdata ∷ []) ne (omega arith)
                  ∙ ap (λ k. exited (take k head.contents ++ file)) z))))
