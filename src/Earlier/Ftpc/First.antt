-- ===== src/Earlier/Ftpc/First.antt =====
-- The first packet of the earlier file client.
use reliable_udp.Base.{
  List, ap, arith, drop, drop-all, length, length-append, length-drop, length-take, length-take-le,
  drop-length-append, dec_lt, append-nil, take-all, pos, sym, take, take-append-drop, ℕ, ◌++◌, ◌+◌,
  ◌<◌, ◌^◌, ◌∙◌, ◌≡◌,
}
use reliable_udp.Earlier.Copies.{
  drop-put_at_behind, length-put_at, put_at-fits, take-put_at, take-put_at_before, unsigned_of-take,
}
use reliable_udp.Earlier.Ftpc.{first_packet}
use reliable_udp.Earlier.Header.Layout.{unsigned_of-int_bytes}
use reliable_udp.Earlier.Memory.{put_at, signed_of, unsigned_of}
use reliable_udp.Packet.{int_bytes}

module _ (stack name file : List ℕ) (full : length stack ≡ 1000) (is20 : length name ≡ 20) where
  abbrev sized : List ℕ
  sized = put_at 0 (int_bytes (length file)) stack

  abbrev named : List ℕ
  named = put_at 4 name sized

  length-named : length named ≡ 1000
  length-named = length-put_at 4 name sized ∙ length-put_at 0 (int_bytes (length file)) stack ∙ full

  size_first : take 4 sized ≡ int_bytes (length file)
  unfolding int_bytes
  size_first = take-put_at (int_bytes (length file)) stack (omega arith)

  pub length-first_packet : length (first_packet stack name file) ≡ 1000
  unfolding first_packet
  length-first_packet = length-put_at 24 (take 976 file) named ∙ length-named

  -- It starts with the size of the file.
  pub signed_of-first_packet :
      length file < 2 ^ 31
      → signed_of (unsigned_of (first_packet stack name file)) ≡ pos (length file)
  unfolding first_packet signed_of
  signed_of-first_packet small = rw (size_read small) (ground arith)
    where
      size_read : length file < 2 ^ 31 → unsigned_of (first_packet stack name file) ≡ length file
      size_read small =
          unsigned_of-take (first_packet stack name file)
          ∙ ap unsigned_of (
              take-put_at_before 4 24 (take 976 file) named (omega arith)
              ∙ take-put_at_before 4 4 name sized (omega arith)
              ∙ size_first)
          ∙ unsigned_of-int_bytes (length file) (omega arith)

  abbrev start : List ℕ
  start = take 976 file

  -- What the stack holds behind the file.
  abbrev filler : List ℕ
  filler = drop (24 + length start) stack

  first_data : drop 24 (first_packet stack name file) ≡ start ++ filler
  unfolding first_packet int_bytes
  first_data =
      ap (drop 24)
        (put_at-fits 24 start named (omega (arith, length-named, length-take-le 976 file)))
      ∙ ap (λ n. drop n (take 24 named ++ (start ++ drop (24 + length start) named)))
          (sym (length-take 24 named (omega (arith, length-named))))
      ∙ drop-length-append (take 24 named) (start ++ drop (24 + length start) named)
      ∙ ap (λ x. start ++ x)
          (drop-put_at_behind (24 + length start) 4 name sized (omega arith)
            ∙ drop-put_at_behind (24 + length start) 0 (int_bytes (length file)) stack
                (omega arith))

  first_written : take 976 (drop 24 (first_packet stack name file)) ≡ start ++ filler
  first_written =
      ap (take 976) first_data
      ∙ take-all 976 (start ++ filler) (
          omega (
            arith,
            length-append start filler,
            length-drop (24 + length start) stack,
            length-take-le 976 file,
          ))

  -- Behind the name stands the start of the file, and behind a short file what the stack held.
  pub drop-first_packet :
      take 976 (drop 24 (first_packet stack name file)) ++ drop 976 file
      ≡ file ++ drop (24 + length file) stack
  drop-first_packet =
      ap (λ x. x ++ drop 976 file) first_written ∙ (elim (dec_lt 976 (length file)) [
        | yes long ↦
            ap (λ x. (start ++ x) ++ drop 976 file)
              (drop-all (24 + length start) stack
                (omega (arith, length-take 976 file (omega arith))))
            ∙ ap (λ x. x ++ drop 976 file) (append-nil start)
            ∙ take-append-drop 976 file
            ∙ sym (
                ap (λ x. file ++ x) (drop-all (24 + length file) stack (omega arith))
                ∙ append-nil file)
        | no short ↦
            ap (λ x. (start ++ filler) ++ x) (drop-all 976 file (omega arith))
            ∙ append-nil (start ++ filler)
            ∙ ap (λ x. x ++ drop (24 + length x) stack) (take-all 976 file (omega arith))
      ])
