-- ===== src/EndToEnd/Numbers.antt =====
-- The packets of a transfer carry their places, and only the last one is a FIN.
use reliable_udp.Base.{
  List, ap, arith, drop, get_elem?, length, refl, some, suc, take, zero, ℕ, ◌+◌, ◌≡◌, ◌≢◌,
}
use reliable_udp.FtpClient.{chunk_packet, fin_packet, header_packet}
use reliable_udp.FtpClient.Transfer.{chunks, full_chunks, transfer}
use reliable_udp.Packet.{PacketData}

chunks-numbered :
    (k : ℕ) (sending : PacketData) (unread : List ℕ) (i : ℕ) (d : PacketData)
    → get_elem? (chunks k sending unread) i ≡ some d
    → d.sequence_num ≡ sending.sequence_num + 1 + i
unfolding chunks chunk_packet fin_packet
chunks-numbered zero sending unread zero d e = ground arith
chunks-numbered zero sending unread (suc zero) d e = ground arith
chunks-numbered zero sending unread (suc (suc i)) d e = absurd (cc)
chunks-numbered (suc k) sending unread zero d e = ground arith
chunks-numbered (suc k) sending unread (suc i) d e =
    omega
      (arith, chunks-numbered k (chunk_packet sending (take 900 unread)) (drop 900 unread) i d e)

-- The packet at place `i` of a transfer has the sequence number `i`.
pub transfer-numbered :
    (stack : PacketData) (name file : List ℕ) (i : ℕ) (d : PacketData)
    → get_elem? (transfer stack name file) i ≡ some d
    → d.sequence_num ≡ i
unfolding transfer header_packet
transfer-numbered stack name file zero d e = ground arith
transfer-numbered stack name file (suc i) d e =
    omega (arith, chunks-numbered (full_chunks file) (header_packet stack name file) file i d e)

chunks-fin :
    (k : ℕ) (sending : PacketData) (unread : List ℕ) (i : ℕ) (d : PacketData)
    → sending.fin ≢ 1
    → get_elem? (chunks k sending unread) i ≡ some d
    → d.fin ≡ 1
    → length (chunks k sending unread) ≡ suc i
unfolding chunks chunk_packet fin_packet
chunks-fin zero sending unread zero d ne e f = absurd (ground arith)
chunks-fin zero sending unread (suc zero) d ne e f = refl
chunks-fin zero sending unread (suc (suc i)) d ne e f = absurd (cc)
chunks-fin (suc k) sending unread zero d ne e f = absurd (ground arith)
chunks-fin (suc k) sending unread (suc i) d ne e f =
    ap suc (chunks-fin k (chunk_packet sending (take 900 unread)) (drop 900 unread) i d ne e f)

-- Where the stack leaves no FIN flag in the client's packet, a FIN of the transfer is its end.
pub transfer-fin :
    (stack : PacketData) (name file : List ℕ) (i : ℕ) (d : PacketData)
    → stack.fin ≢ 1
    → get_elem? (transfer stack name file) i ≡ some d
    → d.fin ≡ 1
    → length (transfer stack name file) ≡ suc i
unfolding transfer header_packet
transfer-fin stack name file zero d ne e f = absurd (ground arith)
transfer-fin stack name file (suc i) d ne e f =
    ap suc (chunks-fin (full_chunks file) (header_packet stack name file) file i d ne e f)
