-- ===== src/EndToEnd/Lossless.antt =====
-- A transfer on a network that loses nothing.
use reliable_udp.Base.{
  List, [], arith, drop, get_elem?, inl, inr, length, length-take-le, refl, some, subst, suc, sym,
  take, zero, ℕ, ◌+◌, ◌/◌, ◌<◌, ◌∷◌, ◌≡◌, ◌≢◌, ◌≤◌,
}
use reliable_udp.Client.{stamped}
use reliable_udp.EndToEnd.Numbers.{transfer-numbered}
use reliable_udp.EndToEnd.Whole.{exit_writes}
use reliable_udp.FtpClient.{chunk_packet, fin_packet, header_packet}
use reliable_udp.FtpClient.Transfer.{chunks, full_chunks, transfer}
use reliable_udp.FtpServer.{ftp_server_run, start_ftp_server}
use reliable_udp.Outcome.{exited}
use reliable_udp.Packet.{Packet, PacketData}
use reliable_udp.Server.{ServerOutput, server_run, start_server}
use reliable_udp.Server.Delivery.{IsFaithful, ftps_data}
use reliable_udp.Server.Invariant.{IsGenuine}
use reliable_udp.Server.Lossless.{InTurn, IsNext, server_run_exits}
use reliable_udp.Server.Run.{AllTrusted, server_run_in_order}

-- What arrives when every packet is sent once and none is lost.
abbrev pub all_sent : ℕ → List PacketData → List Packet
all_sent to_server [] = []
all_sent to_server (d ∷ ds) = stamped to_server d ∷ all_sent to_server ds

pub stamped-IsNext :
    (to_server n : ℕ) (d : PacketData)
    → d.sequence_num ≡ n
    → d.bytes_in_packet ≤ 900
    → n ≤ 1000
    → IsNext n (stamped to_server d)
unfolding stamped
stamped-IsNext to_server n d is short small = record {
  right = refl;
  number = is;
  short = short;
  small = small;
}

fin-stamped : (to_server : ℕ) (d : PacketData) → (stamped to_server d).packetdata.fin ≡ d.fin
unfolding stamped
fin-stamped to_server d = refl

chunks-InTurn :
    (to_server k n : ℕ) (sending : PacketData) (unread : List ℕ)
    → sending.sequence_num + 1 ≡ n
    → sending.fin ≢ 1
    → n + k + 1 < 1000
    → InTurn n (all_sent to_server (chunks k sending unread))
unfolding chunks
chunks-InTurn to_server zero n sending unread is ne small =
    let last = chunk_packet sending (take 900 unread) in
    (
      stamped-IsNext to_server n last (unfold chunk_packet in is)
          (unfold chunk_packet in length-take-le 900 unread) (omega arith),
      (omega arith),
      inr (
        (unfold stamped chunk_packet in ne),
        (
          stamped-IsNext to_server (n + 1) (fin_packet last)
              (unfold fin_packet chunk_packet in omega arith) (unfold fin_packet in omega arith)
              (omega arith),
          (omega arith),
          inl (unfold stamped fin_packet in refl),
        ),
      ),
    )
chunks-InTurn to_server (suc k) n sending unread is ne small =
    let next = chunk_packet sending (take 900 unread) in
    (
      stamped-IsNext to_server n next (unfold chunk_packet in is)
          (unfold chunk_packet in length-take-le 900 unread) (omega arith),
      (omega arith),
      inr (
        (unfold stamped chunk_packet in ne),
        chunks-InTurn to_server k (n + 1) next (drop 900 unread)
            (unfold chunk_packet in omega arith) (unfold chunk_packet in ne) (omega arith),
      ),
    )

transfer-InTurn :
    (to_server : ℕ) (stack : PacketData) (name file : List ℕ)
    → stack.fin ≢ 1
    → stack.bytes_in_packet ≤ 900
    → length file / 900 < 998
    → InTurn 0 (all_sent to_server (transfer stack name file))
unfolding transfer
transfer-InTurn to_server stack name file ne short small =
    let head = header_packet stack name file in
    (
      stamped-IsNext to_server 0 head (unfold header_packet in refl) (unfold header_packet in short)
          (omega arith),
      (omega arith),
      inr (
        (unfold stamped header_packet in ne),
        chunks-InTurn to_server (full_chunks file) 1 head file (unfold header_packet in refl)
            (unfold header_packet in ne) (omega arith),
      ),
    )

all_sent-AllTrusted :
    (all : List PacketData) (to_server to_client : ℕ) (ds : List PacketData)
    → ((i : ℕ) (d : PacketData) → get_elem? ds i ≡ some d → IsGenuine all d)
    → AllTrusted all to_client (all_sent to_server ds)
all_sent-AllTrusted all to_server to_client [] h = tt
all_sent-AllTrusted all to_server to_client (d ∷ ds) h = (
  λ right. unfold stamped in h 0 d refl,
  all_sent-AllTrusted all to_server to_client ds (λ i e at. h (suc i) e at),
)

transfer-IsGenuine :
    (stack : PacketData) (name file : List ℕ) (i : ℕ) (d : PacketData)
    → get_elem? (transfer stack name file) i ≡ some d
    → IsGenuine (transfer stack name file) d
transfer-IsGenuine stack name file i d e =
    subst (λ k. get_elem? (transfer stack name file) k ≡ some d)
      (sym (transfer-numbered stack name file i d e)) e

-- A file of fewer than 998 * 900 bytes whose packets all arrive, in order and undamaged: the
-- receiving daemon takes them all and exits, and the file server has written exactly the file,
-- provided that the stack left no FIN flag and a zero length in the client's first packet.
pub lossless_transfer :
    (stack : PacketData) (name file : List ℕ) (to_server to_client : ℕ) (request received : Packet)
    → stack.fin ≢ 1
    → stack.bytes_in_packet ≡ 0
    → length file / 900 < 998
    → (os : List ServerOutput) × (server_run to_client
          (start_server request received)
          (all_sent to_server (transfer stack name file))
        ≡ exited os)
      × (ftp_server_run start_ftp_server (ftps_data os) ≡ exited file)
lossless_transfer stack name file to_server to_client request received ne z small =
    let all = transfer stack name file in
    let (os, e) =
      server_run_exits to_client request received (all_sent to_server all)
        (transfer-InTurn to_server stack name file ne (omega arith) small) in
    (
      os,
      e,
      exit_writes stack name file received os ne z (
          subst (IsFaithful all 0 received) e (
            server_run_in_order all to_client request received (all_sent to_server all) (
              all_sent-AllTrusted all to_server to_client all
                (transfer-IsGenuine stack name file)))),
    )
