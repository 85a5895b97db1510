-- ===== src/EndToEnd/LongFile.antt =====
-- A transfer of more packets than the receiving daemon has marks for.
use reliable_udp.Base.{
  List, arith, drop, inl, inr, length, length-take-le, refl, suc, take, zero, ℕ, ◌+◌, ◌/◌, ◌≡◌, ◌≢◌,
  ◌≤◌, ℕ_discrete,
}
use reliable_udp.Client.{stamped}
use reliable_udp.EndToEnd.Lossless.{all_sent, stamped-IsNext}
use reliable_udp.FtpClient.{chunk_packet, fin_packet, header_packet}
use reliable_udp.FtpClient.Transfer.{chunks, full_chunks, transfer}
use reliable_udp.Outcome.{fault}
use reliable_udp.Packet.{Packet, PacketData}
use reliable_udp.Server.{server_run, start_server}
use reliable_udp.Server.LongRun.{ToMarksEnd, server_run_faults}

chunks-ToMarksEnd :
    (to_server k n : ℕ) (sending : PacketData) (unread : List ℕ)
    → sending.sequence_num + 1 ≡ n
    → sending.fin ≢ 1
    → n ≤ 1000
    → 1000 ≤ n + k + 1
    → ToMarksEnd n (all_sent to_server (chunks k sending unread))
unfolding chunks
chunks-ToMarksEnd to_server zero n sending unread is ne small long =
    let last = chunk_packet sending (take 900 unread) in
    (
      stamped-IsNext to_server n last (unfold chunk_packet in is)
          (unfold chunk_packet in length-take-le 900 unread) small,
      elim (ℕ_discrete n 1000) [
        | yes end ↦ inl end
        | no before ↦ inr (
          omega arith,
          (unfold stamped chunk_packet in ne),
          (
            stamped-IsNext to_server (n + 1) (fin_packet last)
                (unfold fin_packet chunk_packet in omega arith) (unfold fin_packet in omega arith)
                (omega arith),
            inl (omega arith),
          ),
        )
      ],
    )
chunks-ToMarksEnd to_server (suc k) n sending unread is ne small long =
    let next = chunk_packet sending (take 900 unread) in
    (
      stamped-IsNext to_server n next (unfold chunk_packet in is)
          (unfold chunk_packet in length-take-le 900 unread) small,
      elim (ℕ_discrete n 1000) [
        | yes end ↦ inl end
        | no before ↦ inr (
          omega arith,
          (unfold stamped chunk_packet in ne),
          chunks-ToMarksEnd to_server k (n + 1) next (drop 900 unread)
              (unfold chunk_packet in omega arith) (unfold chunk_packet in ne) (omega arith)
              (omega arith),
        )
      ],
    )

transfer-ToMarksEnd :
    (to_server : ℕ) (stack : PacketData) (name file : List ℕ)
    → stack.fin ≢ 1
    → stack.bytes_in_packet ≤ 900
    → 998 ≤ length file / 900
    → ToMarksEnd 0 (all_sent to_server (transfer stack name file))
unfolding transfer
transfer-ToMarksEnd to_server stack name file ne short long =
    let head = header_packet stack name file in
    (
      stamped-IsNext to_server 0 head (unfold header_packet in refl) (unfold header_packet in short)
          (omega arith),
      inr (
        omega arith,
        (unfold stamped header_packet in ne),
        chunks-ToMarksEnd to_server (full_chunks file) 1 head file (unfold header_packet in refl)
            (unfold header_packet in ne) (omega arith) (omega arith),
      ),
    )

-- A file of at least 998 * 900 bytes, even if all its packets arrive, in order and undamaged: the
-- receiving daemon writes past its array of 1000 marks, provided that the stack left no FIN flag
-- and a length of at most 900 in the client's first packet.
pub long_transfer_faults :
    (stack : PacketData) (name file : List ℕ) (to_server to_client : ℕ) (request received : Packet)
    → stack.fin ≢ 1
    → stack.bytes_in_packet ≤ 900
    → 998 ≤ length file / 900
    → server_run to_client
        (start_server request received)
        (all_sent to_server (transfer stack name file))
      ≡ fault
long_transfer_faults stack name file to_server to_client request received ne short long =
    server_run_faults to_client request received (all_sent to_server (transfer stack name file))
      (transfer-ToMarksEnd to_server stack name file ne short long)
