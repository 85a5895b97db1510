-- ===== src/Earlier/Ftps/Written.antt =====
-- What the earlier file server writes.
use reliable_udp.Base.{
  List, Option, [], ap₂, take, drop, ◌-ℤ◌, length-replicate, ap, append-nil, append_assoc, arith,
  false, ltb_ℤ, pos, refl, some, sym, true, ℕ, ◌++◌, ◌+ℤ◌, ◌+◌, ◌∙◌, ◌∷◌, ◌≡◌, length,
}
use reliable_udp.Earlier.Blocks.{Fills, delivered, join}
use reliable_udp.Earlier.Ftps.{Ftps, ftps_loop, ftps_round, ftps_run, start_ftps}
use reliable_udp.Earlier.Memory.{received, signed_of, unsigned_of}
use reliable_udp.Earlier.Copies.{put_at-whole}
use reliable_udp.Packet.{zero_bytes}
use reliable_udp.Outcome.{exited, running, then_on, then_on-idle}

ftps_loop-done :
    (s : Ftps) (ms : List (Option (List ℕ)))
    → ltb_ℤ s.bytes_received s.file_size ≡ false
    → ftps_loop s ms ≡ exited s.written
unfolding ftps_loop
ftps_loop-done s [] h = rw h
ftps_loop-done s (m ∷ ms) h = rw h

ftps_loop-more :
    (s s' : Ftps) (m : Option (List ℕ)) (ms : List (Option (List ℕ)))
    → ltb_ℤ s.bytes_received s.file_size ≡ true
    → ftps_round s m ≡ running s' []
    → ftps_loop s (m ∷ ms) ≡ ftps_loop s' ms
unfolding ftps_loop
ftps_loop-more s s' m ms h e = rw (h, e) (then_on-idle s' (λ t. ftps_loop t ms))

-- The packets that fill the file up to its size are written behind what was written before, and
-- the server exits, whatever comes after them.
pub ftps_loop_writes :
    (bs : List (List ℕ)) (rest : List (Option (List ℕ))) (s : Ftps) (counted size : ℕ)
    → s.bytes_received ≡ pos counted
    → s.file_size ≡ pos size
    → Fills counted size bs
    → ftps_loop s (delivered bs ++ rest) ≡ exited (s.written ++ join bs)
ftps_loop_writes [] rest s counted size r f h =
    ftps_loop-done s rest (rw (r, f) (ground arith)) ∙ ap exited (sym (append-nil s.written))
ftps_loop_writes (b ∷ bs) rest s counted size r f h =
    let s' : Ftps = record s {
      bytes_received = s.bytes_received +ℤ received (some b);
      written = s.written ++ b;
    } in
    ftps_loop-more s s' (some b) (delivered bs ++ rest) (rw (r, f) (ground arith))
      (unfold ftps_round in refl)
    ∙ ftps_loop_writes bs rest s' (counted + length b) size
        (rw r (unfold received ◌+ℤ◌ in ground arith)) f h.2
    ∙ ap exited (append_assoc s.written b (join bs))

-- The state after a first packet of full size.
abbrev ready_server : List ℕ → Ftps
ready_server first = record {
  bytes_received = pos 976;
  file_size = signed_of (unsigned_of first);
  written = take 976 (drop 24 first);
}

start_ftps_lem :
    (first : List ℕ)
    → length first ≡ 1000
    → start_ftps (some first) ≡ running (ready_server first) []
unfolding start_ftps received ◌-ℤ◌ zero_bytes
start_ftps_lem first is1000 =
    ap₂
      (λ (n : ℕ) buffer.
        running
          (record {
            bytes_received = pos n -ℤ pos 24;
            file_size = signed_of (unsigned_of buffer);
            written = take 976 (drop 24 buffer);
          })
          [])
      is1000 (put_at-whole first (zero_bytes 1000) (is1000 ∙ sym (length-replicate {A = ℕ} 1000 0)))

-- After a first packet of full size, packets that fill the file up to the size in it are written
-- behind its 976 bytes, and the server exits.
pub ftps_run_writes :
    (first : List ℕ) (bs : List (List ℕ)) (size : ℕ)
    → length first ≡ 1000
    → signed_of (unsigned_of first) ≡ pos size
    → Fills 976 size bs
    → ftps_run (some first) (delivered bs) ≡ exited (take 976 (drop 24 first) ++ join bs)
unfolding ftps_run
ftps_run_writes first bs size is1000 sized fills =
    ap (λ o. then_on o (λ s. ftps_loop s (delivered bs))) (start_ftps_lem first is1000)
    ∙ then_on-idle (ready_server first) (λ s. ftps_loop s (delivered bs))
    ∙ ap (ftps_loop (ready_server first)) (sym (append-nil (delivered bs)))
    ∙ ftps_loop_writes bs [] (ready_server first) 976 size refl sized fills
