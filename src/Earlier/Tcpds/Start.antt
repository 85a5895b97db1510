-- ===== src/Earlier/Tcpds/Start.antt =====
-- The first packet of the earlier receiving daemon.
use reliable_udp.Base.{
  List, [], ap, arith, drop, drop-length-append, length, length-append, length-replicate, pos, refl,
  some, sym, take, take-all, ℕ, ◌++◌, ◌∙◌, ◌∷◌, ◌≡◌, ≥→ltb,
}
use reliable_udp.Earlier.Copies.{put_at-whole}
use reliable_udp.Earlier.Header.{header_bytes, zero_header}
use reliable_udp.Earlier.Memory.{put_at, signed_of, unsigned_of}
use reliable_udp.Earlier.Tcpds.{
  Tcpds, TcpdsOutput, buffer_header, logged, start_tcpds, to_ack, to_ftps,
}
use reliable_udp.Earlier.Tcpds.Passes.{for_ftps, logged-for_ftps}
use reliable_udp.Outcome.{running}
use reliable_udp.Packet.{zero_bytes}

module _ (front first : List ℕ) (is36 : length front ≡ 36) (is1000 : length first ≡ 1000) where
  abbrev whole : List ℕ
  whole = front ++ first

  size : length whole ≡ 1036
  size = length-append front first ∙ omega arith

  filled : put_at 0 whole (zero_bytes 1036) ≡ whole
  unfolding zero_bytes
  filled = put_at-whole whole (zero_bytes 1036) (size ∙ sym (length-replicate {A = ℕ} 1036 0))

  behind : take 1000 (drop 36 whole) ≡ first
  behind =
      ap (λ n. take 1000 (drop n whole)) (sym is36)
      ∙ ap (take 1000) (drop-length-append front first)
      ∙ take-all 1000 first (omega arith)

  -- A first packet of full size is passed on behind its 36 bytes of address and header.
  pub start_tcpds_passes :
      (s : Tcpds) × (os : List TcpdsOutput) × (start_tcpds (some whole) ≡ running s os)
      × (for_ftps os ≡ first ∷ [])
      × (length s.message_buffer ≡ 1036)
      × (s.bytes_sent ≡ pos 976)
      × (s.file_size ≡ signed_of (unsigned_of first))
  unfolding start_tcpds
  start_tcpds_passes =
      let buffer = put_at 0 whole (zero_bytes 1036) in
      let seq = (buffer_header buffer).sequence_number in
      let passed : take 1000 (drop 36 buffer) ≡ first =
        ap (λ x. take 1000 (drop 36 x)) filled ∙ behind in
      let out =
        to_ftps (take 1000 (drop 36 buffer))
        ∷ to_ack (header_bytes (record zero_header { sequence_number = seq }))
        ∷ [] in
      (
        record {
          message_buffer = zero_bytes 1036;
          seq_number = seq;
          bytes_sent = pos 976;
          file_size = signed_of (unsigned_of (take 1000 (drop 36 buffer)));
        },
        logged (length whole) buffer ++ out,
        rw (≥→ltb (length whole) 16 (omega (arith, size))),
        logged-for_ftps (length whole) buffer out ∙ ap (λ x. x ∷ []) passed,
        unfold zero_bytes in length-replicate {A = ℕ} 1036 0,
        refl,
        ap (λ x. signed_of (unsigned_of x)) passed,
      )
