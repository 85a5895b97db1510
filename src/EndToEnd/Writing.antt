-- ===== src/EndToEnd/Writing.antt =====
-- What the file server writes when it is passed a transfer.
use reliable_udp.Base.{
  List, [], ap, append_assoc, ap₂, arith, drop, length, length-drop, length-take-le, refl, suc,
  take, take-all, take-append-drop, take-length-append, zero, ℕ, ◌++◌, ◌-◌, ◌/◌, ◌∙◌, ◌∷◌, ◌≡◌, ◌≢◌,
  ◌≤◌,
}
use reliable_udp.FtpClient.{chunk_packet, filled_data, fin_packet, header_packet}
use reliable_udp.FtpClient.Transfer.{chunks, full_chunks, transfer}
use reliable_udp.FtpServer.{
  FtpServer, ftp_server_run, ftp_server_step, note_first, start_ftp_server,
}
use reliable_udp.Outcome.{exited, running, then_on, then_on-exited, then_on-idle}
use reliable_udp.Packet.{PacketData, zero_bytes}

pub written-note_first : (s : FtpServer) (d : PacketData) → (note_first s d).written ≡ s.written
unfolding note_first
written-note_first s d = ground arith

-- A packet that is no FIN, with at most 900 bytes, adds its bytes to the file.
step_writes :
    (s : FtpServer) (d : PacketData) (bytes : List ℕ)
    → d.bytes_in_packet ≤ 900
    → d.fin ≢ 1
    → take d.bytes_in_packet d.contents ≡ bytes
    → (s' : FtpServer) × (ftp_server_step s d ≡ running s' []) × (s'.written ≡ s.written ++ bytes)
unfolding ftp_server_step
step_writes s d bytes le ne e = (
  record (note_first s d) {
    written = (note_first s d).written ++ take d.bytes_in_packet d.contents;
  },
  ground arith,
  ap₂ (λ x y. x ++ y) (written-note_first s d) e,
)

step_ends :
    (s : FtpServer) (d : PacketData)
    → d.bytes_in_packet ≤ 900
    → d.fin ≡ 1
    → ftp_server_step s d ≡ exited s.written
unfolding ftp_server_step
step_ends s d le f = ground (arith, written-note_first s d)

chunk_writes :
    (s : FtpServer) (sending : PacketData) (bytes : List ℕ)
    → length bytes ≤ 900
    → sending.fin ≢ 1
    → (s' : FtpServer) × (ftp_server_step s (chunk_packet sending bytes) ≡ running s' [])
      × (s'.written ≡ s.written ++ bytes)
unfolding chunk_packet filled_data
chunk_writes s sending bytes le ne =
    step_writes s (chunk_packet sending bytes) bytes le ne
      (take-length-append bytes (zero_bytes (900 - length bytes)))

run_step :
    (s s' : FtpServer) (d : PacketData) (ds : List PacketData)
    → ftp_server_step s d ≡ running s' []
    → ftp_server_run s (d ∷ ds) ≡ ftp_server_run s' ds
unfolding ftp_server_run
run_step s s' d ds e =
    ap (λ o. then_on o (λ t. ftp_server_run t ds)) e ∙ then_on-idle s' (λ t. ftp_server_run t ds)

run_end :
    (s : FtpServer) (d : PacketData) (ds : List PacketData)
    → d.bytes_in_packet ≤ 900
    → d.fin ≡ 1
    → ftp_server_run s (d ∷ ds) ≡ exited s.written
unfolding ftp_server_run
run_end s d ds le f =
    then_on-exited (ftp_server_step s d) (λ t. ftp_server_run t ds) s.written (step_ends s d le f)

chunks_written :
    (k : ℕ) (s : FtpServer) (sending : PacketData) (unread : List ℕ) (rest : List PacketData)
    → sending.fin ≢ 1
    → length unread / 900 ≡ k
    → ftp_server_run s (chunks k sending unread ++ rest) ≡ exited (s.written ++ unread)
unfolding chunks
chunks_written zero s sending unread rest ne e =
    let last = chunk_packet sending (take 900 unread) in
    let (s', step, w) = chunk_writes s sending (take 900 unread) (length-take-le 900 unread) ne in
    run_step s s' last (fin_packet last ∷ rest) step
    ∙ run_end s' (fin_packet last) rest (unfold fin_packet in omega arith)
        (unfold fin_packet in refl)
    ∙ ap exited (w ∙ ap (λ x. s.written ++ x) (take-all 900 unread (omega arith)))
chunks_written (suc k) s sending unread rest ne e =
    let (s', step, w) = chunk_writes s sending (take 900 unread) (length-take-le 900 unread) ne in
    run_step s s' (chunk_packet sending (take 900 unread))
      (chunks k (chunk_packet sending (take 900 unread)) (drop 900 unread) ++ rest) step
    ∙ chunks_written k s' (chunk_packet sending (take 900 unread)) (drop 900 unread) rest
        (unfold chunk_packet in ne) (omega (arith, length-drop 900 unread))
    ∙ ap exited (
        ap (λ x. x ++ drop 900 unread) w
        ∙ append_assoc s.written (take 900 unread) (drop 900 unread)
        ∙ ap (λ x. s.written ++ x) (take-append-drop 900 unread))

-- Of a whole transfer, whatever follows it, the file server writes the file, after as many bytes
-- of the first packet as the client's stack put into its `bytes_in_packet`; then it exits.
pub transfer_written :
    (stack : PacketData) (name file : List ℕ) (rest : List PacketData)
    → stack.fin ≢ 1
    → stack.bytes_in_packet ≤ 900
    → ftp_server_run start_ftp_server (transfer stack name file ++ rest)
      ≡ exited (take stack.bytes_in_packet (header_packet stack name file).contents ++ file)
unfolding transfer
transfer_written stack name file rest ne le =
    let head = header_packet stack name file in
    let (s', step, w) =
      step_writes start_ftp_server head (take stack.bytes_in_packet head.contents)
        (unfold header_packet in le) (unfold header_packet in ne) (unfold header_packet in refl) in
    run_step start_ftp_server s' head (chunks (full_chunks file) head file ++ rest) step
    ∙ chunks_written (full_chunks file) s' head file rest (unfold header_packet in ne) refl
    ∙ ap exited (ap (λ x. x ++ file) w)
