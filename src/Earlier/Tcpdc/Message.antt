-- ===== src/Earlier/Tcpdc/Message.antt =====
-- The message body that the earlier sending daemon builds.
use reliable_udp.Base.{
  List, ap, append_assoc, arith, drop, length, length-append, length-take, refl, some, take,
  take-length-append, ℕ, ℤ, ◌++◌, ◌+◌, ◌∙◌, ◌≡◌, ◌≤◌, sym, pos, pos_part, ◌+ℤ◌, ◌%◌,
}
use reliable_udp.BitCrc.{update_crc}
use reliable_udp.Earlier.Copies.{length-put_at, put_at-append, put_at-fits}
use reliable_udp.Earlier.Header.{TcpHeader, header_bytes}
use reliable_udp.Earlier.Header.Layout.{length-header_bytes}
use reliable_udp.Earlier.Memory.{put_at, unsigned_of}
use reliable_udp.Earlier.Tcpdc.{flag_of, insert_tcp_header, message_with}

module _ (body : List ℕ) (seq : ℕ) (size : ℤ) (bytes memory : List ℕ) where
  pub length-message_with : length (message_with body seq size bytes memory) ≡ length body
  unfolding message_with
  length-message_with =
      let plain = put_at 0 (header_bytes (insert_tcp_header seq 0)) (put_at 20 bytes body) in
      let crc16 = update_crc (take (pos_part (size +ℤ pos 20)) plain) memory % 65536 in
      length-put_at 0 (header_bytes (insert_tcp_header seq crc16)) plain
      ∙ length-put_at 0 (header_bytes (insert_tcp_header seq 0)) (put_at 20 bytes body)
      ∙ length-put_at 20 bytes body

  -- A header with this number, the bytes, and what was behind them.
  pub message_with_lem :
      20 + length bytes ≤ length body
      → (crc16 : ℕ) × (message_with body seq size bytes memory
          ≡ header_bytes (insert_tcp_header seq crc16) ++ (bytes ++ drop (20 + length bytes) body))
  unfolding message_with
  message_with_lem fits =
      let plain = put_at 0 (header_bytes (insert_tcp_header seq 0)) (put_at 20 bytes body) in
      let crc16 = update_crc (take (pos_part (size +ℤ pos 20)) plain) memory % 65536 in
      let zeroed = header_bytes (insert_tcp_header seq 0) in
      let header = header_bytes (insert_tcp_header seq crc16) in
      let rest = bytes ++ drop (20 + length bytes) body in
      let first : length (take 20 body) ≡ 20 = length-take 20 body (omega arith) in
      (
        crc16,
        ap (put_at 0 header) (
              ap (put_at 0 zeroed) (put_at-fits 20 bytes body fits)
              ∙ put_at-append zeroed (take 20 body) rest
                  (length-header_bytes (insert_tcp_header seq 0) ∙ sym first))
            ∙ put_at-append header zeroed rest (
                length-header_bytes (insert_tcp_header seq crc16)
                ∙ sym (length-header_bytes (insert_tcp_header seq 0))),
      )

  -- The part that is sent.
  pub take-message_with :
      20 + length bytes ≤ length body
      → (crc16 : ℕ) × (take (length bytes + 20) (message_with body seq size bytes memory)
          ≡ header_bytes (insert_tcp_header seq crc16) ++ bytes)
  take-message_with fits =
      let (crc16, e) = message_with_lem fits in
      let header = header_bytes (insert_tcp_header seq crc16) in
      (
        crc16,
        ap (take (length bytes + 20))
              (e ∙ sym (append_assoc header bytes (drop (20 + length bytes) body)))
            ∙ ap (λ n. take n ((header ++ bytes) ++ drop (20 + length bytes) body))
                (both (insert_tcp_header seq crc16))
            ∙ take-length-append (header ++ bytes) (drop (20 + length bytes) body),
      )
    where
      both : (h : TcpHeader) → length bytes + 20 ≡ length (header_bytes h ++ bytes)
      both h = omega (arith, length-append (header_bytes h) bytes, length-header_bytes h)

  -- Its first four bytes are the two ports, which are zero.
  pub flag_of-message_with :
      20 + length bytes ≤ length body → flag_of (message_with body seq size bytes memory) ≡ some 0
  unfolding flag_of header_bytes insert_tcp_header unsigned_of
  flag_of-message_with fits = let (crc16, e) = message_with_lem fits in ap flag_of e ∙ refl
