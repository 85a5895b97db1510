-- ===== src/Earlier/Tcpds/Passes.antt =====
-- What the earlier receiving daemon passes on and acknowledges.
use reliable_udp.Base.{
  Bool-cases, List, Option, [], ap, append_assoc, ap₂, arith, ≥→ltb, false, inl, inr, length,
  length-append, ltb_ℤ, pos, refl, some, true, ℕ, ◌%◌, ◌++◌, ◌+ℤ◌, ◌+◌, ◌-◌, ◌==◌, ◌^◌, ◌∙◌, ◌∷◌,
  ◌≡◌, ◌≤◌, drop, take,
}
use reliable_udp.Earlier.Blocks.{Fills}
use reliable_udp.Earlier.Copies.{drop-put_at, length-put_at}
use reliable_udp.Earlier.Header.{header_bytes, read_header}
use reliable_udp.Earlier.Header.Layout.{sequence-header_bytes}
use reliable_udp.Earlier.Memory.{put_at}
use reliable_udp.Earlier.Tcpds.{
  Tcpds, TcpdsOutput, buffer_header, computed_crc, logged, passed_on, sent_size, tcpds_loop,
  tcpds_round, to_ack, to_ftps, to_log, without_checksum,
}
use reliable_udp.Outcome.{exited, running, then_on-running}

-- What is passed to the file server.
abbrev pub for_ftps : List TcpdsOutput → List (List ℕ)
for_ftps [] = []
for_ftps (to_log n ∷ os) = for_ftps os
for_ftps (to_ack a ∷ os) = for_ftps os
for_ftps (to_ftps b ∷ os) = b ∷ for_ftps os

-- The sequence numbers in the acknowledgements.
abbrev pub ack_numbers : List TcpdsOutput → List ℕ
ack_numbers [] = []
ack_numbers (to_log n ∷ os) = ack_numbers os
ack_numbers (to_ack a ∷ os) = (read_header a).sequence_number ∷ ack_numbers os
ack_numbers (to_ftps b ∷ os) = ack_numbers os

-- One number for each packet, from the one after `seq` on.
abbrev pub numbers_after : ℕ → List (List ℕ) → List ℕ
numbers_after seq [] = []
numbers_after seq (b ∷ bs) = (seq + 1) % 2 ^ 32 ∷ numbers_after ((seq + 1) % 2 ^ 32) bs

-- A packet with any 36 bytes of address and header before these bytes.
abbrev pub Wraps : Option (List ℕ) → List ℕ → Type 0
Wraps m b = (front : List ℕ) × (length front ≡ 36) × (m ≡ some (front ++ b))

abbrev pub WrapAll : List (Option (List ℕ)) → List (List ℕ) → Type 0
WrapAll [] [] = Unit
WrapAll [] (b ∷ bs) = ⊥
WrapAll (m ∷ ms) [] = ⊥
WrapAll (m ∷ ms) (b ∷ bs) = Wraps m b × WrapAll ms bs

pub logged-for_ftps :
    (n : ℕ) (buffer : List ℕ) (os : List TcpdsOutput)
    → for_ftps (logged n buffer ++ os) ≡ for_ftps os
unfolding logged
logged-for_ftps n buffer os =
    elim (Bool-cases
      ((buffer_header buffer).check_sum == computed_crc n (without_checksum buffer))) [
        | inl right ↦ rw right
        | inr wrong ↦ rw wrong
      ]

logged-ack_numbers :
    (n : ℕ) (buffer : List ℕ) (os : List TcpdsOutput)
    → ack_numbers (logged n buffer ++ os) ≡ ack_numbers os
unfolding logged
logged-ack_numbers n buffer os =
    elim (Bool-cases
      ((buffer_header buffer).check_sum == computed_crc n (without_checksum buffer))) [
        | inl right ↦ rw right
        | inr wrong ↦ rw wrong
      ]

module _ (s : Tcpds) (front b : List ℕ) (is36 : length front ≡ 36) where
  abbrev buffer : List ℕ
  buffer = put_at 0 (front ++ b) s.message_buffer

  abbrev next : ℕ
  next = (s.seq_number + 1) % 2 ^ 32

  abbrev after_round : Tcpds
  after_round = record s {
    message_buffer = without_checksum buffer;
    seq_number = next;
    bytes_sent = s.bytes_sent +ℤ pos (length b);
  }

  abbrev ack : List ℕ
  ack = header_bytes (record (buffer_header buffer) { check_sum = 0; sequence_number = next })

  size_is : length (front ++ b) ≡ 36 + length b
  size_is = omega (arith, length-append front b)

  size_left : length (front ++ b) - 36 ≡ length b
  size_left = omega (arith, size_is)

  front_size : 36 ≡ length front
  front_size = omega arith

  passed :
      length s.message_buffer ≡ 1036
      → length b ≤ 1000
      → passed_on (length (front ++ b)) buffer ≡ to_ftps b ∷ []
  unfolding passed_on
  passed full short = rw (≥→ltb (length (front ++ b)) 36 (omega (arith, size_is))) (
      ap (λ x. to_ftps x ∷ [])
        (ap₂ (λ n k. take n (drop k buffer)) size_left front_size
          ∙ drop-put_at front b s.message_buffer (omega arith)))

  sent : sent_size (length (front ++ b)) ≡ pos (length b)
  unfolding sent_size
  sent =
      rw (≥→ltb (length (front ++ b)) 36 (omega (arith, size_is))) (ap pos (omega (arith, size_is)))

  round_passes :
      length s.message_buffer ≡ 1036
      → length b ≤ 1000
      → tcpds_round s (some (front ++ b))
        ≡ running after_round (logged (length (front ++ b)) buffer ++ (to_ack ack ∷ to_ftps b ∷ []))
  unfolding tcpds_round
  round_passes full short = rw (≥→ltb (length (front ++ b)) 16 (omega (arith, size_is))) (
      ap₂
        (λ p z.
          running
            (record s {
              message_buffer = without_checksum buffer;
              seq_number = next;
              bytes_sent = s.bytes_sent +ℤ z;
            })
            (logged (length (front ++ b)) buffer ++ (to_ack ack ∷ p)))
        (passed full short) sent)

  full_after : length s.message_buffer ≡ 1036 → length after_round.message_buffer ≡ 1036
  unfolding without_checksum
  full_after full =
      length-put_at 16 (header_bytes (record (buffer_header buffer) { check_sum = 0 })) buffer
      ∙ length-put_at 0 (front ++ b) s.message_buffer
      ∙ full

  numbered : (read_header ack).sequence_number ≡ next
  numbered =
      sequence-header_bytes
        (record (buffer_header buffer) { check_sum = 0; sequence_number = next }) (omega arith)

tcpds_loop-done :
    (s : Tcpds) (ms : List (Option (List ℕ)))
    → ltb_ℤ s.bytes_sent s.file_size ≡ false
    → tcpds_loop s ms ≡ exited []
unfolding tcpds_loop
tcpds_loop-done s [] h = rw h
tcpds_loop-done s (m ∷ ms) h = rw h

tcpds_loop-more :
    (s s' : Tcpds) (m : Option (List ℕ)) (ms : List (Option (List ℕ))) (os ps : List TcpdsOutput)
    → ltb_ℤ s.bytes_sent s.file_size ≡ true
    → tcpds_round s m ≡ running s' os
    → tcpds_loop s' ms ≡ exited ps
    → tcpds_loop s (m ∷ ms) ≡ exited (os ++ ps)
unfolding tcpds_loop
tcpds_loop-more s s' m ms os ps h e f =
    rw h (then_on-running (tcpds_round s m) (λ t. tcpds_loop t ms) s' os ps e f)

-- Of packets with any addresses, headers and checksums whose bytes fill the file up to its size,
-- the daemon passes on exactly the bytes behind the headers, in order, and acknowledges each with
-- the number that follows the last one, whatever number it carries; then it exits.
pub tcpds_loop_passes :
    (bs : List (List ℕ)) (ms rest : List (Option (List ℕ))) (s : Tcpds) (counted size : ℕ)
    → length s.message_buffer ≡ 1036
    → s.bytes_sent ≡ pos counted
    → s.file_size ≡ pos size
    → WrapAll ms bs
    → Fills counted size bs
    → (os : List TcpdsOutput) × (tcpds_loop s (ms ++ rest) ≡ exited os)
      × (for_ftps os ≡ bs)
      × (ack_numbers os ≡ numbers_after s.seq_number bs)
tcpds_loop_passes [] [] rest s counted size full r f w h =
    ([], tcpds_loop-done s rest (rw (r, f) (ground arith)), refl, refl)
tcpds_loop_passes [] (m ∷ ms) rest s counted size full r f w h = elim w [ ]
tcpds_loop_passes (b ∷ bs) [] rest s counted size full r f w h = elim w [ ]
tcpds_loop_passes (b ∷ bs) (m ∷ ms) rest s counted size full r f ((front, is36, is), w) h =
    let s' = after_round s front b is36 in
    let buffer' = buffer s front b is36 in
    let out = to_ack (ack s front b is36) ∷ to_ftps b ∷ [] in
    let (os, e, passes, acks) =
      tcpds_loop_passes bs ms rest s' (counted + length b) size (full_after s front b is36 full)
        (rw r (unfold ◌+ℤ◌ in ground arith)) f w h.2 in
    (
      logged (length (front ++ b)) buffer' ++ (out ++ os),
      tcpds_loop-more s s' m (ms ++ rest) (logged (length (front ++ b)) buffer' ++ out) os
            (rw (r, f) (ground arith))
            (ap (tcpds_round s) is ∙ round_passes s front b is36 full h.1) e
          ∙ ap exited (append_assoc (logged (length (front ++ b)) buffer') out os),
      logged-for_ftps (length (front ++ b)) buffer' (out ++ os) ∙ ap (◌∷◌ b) passes,
      logged-ack_numbers (length (front ++ b)) buffer' (out ++ os)
          ∙ ap₂ (λ n ns. n ∷ ns) (numbered s front b is36) acks,
    )
