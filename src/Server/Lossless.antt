-- ===== src/Server/Lossless.antt =====
-- What the receiving daemon does when no packet is lost: every packet goes out as it comes in.
use reliable_udp.Base.{
  ==_refl, eq→==, ≥→ltb, ne→==, Bool-cases, List, [], ap, arith, false, get_elem?, get_elem?-lt,
  get_elem?-replicate, get_elem?-set_ne, get_elem?-set_self, inl, inr, leb, length,
  length-replicate, length-set, ltb, none, refl, replicate, seq_after, set, some, some_inj, sym,
  true, ℕ, ℕ_discrete, ◌%◌, ◌&&◌, ◌++◌, ◌+◌, ◌<◌, ◌∙◌, ◌∷◌, ◌≡◌, ◌≢◌, ◌≤◌, ◌⊎◌,
}
use reliable_udp.Crc.{checksum_of}
use reliable_udp.Outcome.{fault, exited, running, sends_first-nil, then_on-exited, then_on-running}
use reliable_udp.Packet.{Packet}
use reliable_udp.Server.{
  Server, ServerOutput, ack_packet, acknowledge, advance, deliver, deliver_at, deliver_found,
  deliver_slot, find_low, find_low_in_buffer, find_low_index, finish, hand_out, holds_seq, seq_of,
  server_run, server_step, start_server, take_in, to_daemon, zero_packet,
}
use reliable_udp.Server.OneCell.{
  find_low_from-set, find_low_in_buffer-first, find_low_index_from-set, one_cell-holds, set-freed,
}
use reliable_udp.Server.Search.{holds_seq-set}

-- The state in which `n` packets have come and gone out, in order.
pub record IsIdle (n : ℕ) (s : Server) : Type 0 where
  pub window_free : s.window ≡ replicate 20 none
  pub length_buffer : length s.buffer ≡ 64
  pub head_is : s.head ≡ n % 64
  pub next_is : seq_after s.last_sent ≡ n
  pub acked : (m : ℕ) → holds_seq s.acks m ≡ true → m < n
  pub older : (j : ℕ) (p : Packet) → get_elem? s.buffer j ≡ some p → (seq_of p < n) ⊎ (seq_of p ≡ 0)

-- The packet with the number `n`, as it was sent.
pub record IsNext (n : ℕ) (p : Packet) : Type 0 where
  pub right : checksum_of p.packetdata ≡ p.checksum
  pub number : seq_of p ≡ n
  pub short : p.packetdata.bytes_in_packet ≤ 900
  pub small : n ≤ 1000

module _ (destaddr n : ℕ) (s : Server) (p : Packet) (v : IsIdle n s) (next : IsNext n p) where
  abbrev pub taken : Server
  taken = record s {
    buffer = set s.buffer s.head p;
    window = set s.window (seq_of p % 20) (some (seq_of p));
    head = advance s.head;
  }

  not_acked : holds_seq s.acks (seq_of p) ≡ false
  not_acked = elim (Bool-cases (holds_seq s.acks (seq_of p))) [
    | inl held ↦ absurd (omega (arith, v.acked (seq_of p) held, next.number))
    | inr free ↦ free
  ]

  not_waiting : holds_seq s.window (seq_of p) ≡ false
  not_waiting = rw v.window_free (one_cell-holds 20 (seq_of p))

  is_lowest : find_low (set s.window (seq_of p % 20) (some (seq_of p))) ≡ n
  unfolding find_low
  is_lowest = rw v.window_free (
      find_low_from-set 20 (seq_of p % 20) (seq_of p) 9999 (omega arith)
        (omega (arith, next.number, next.small))
      ∙ next.number)

  in_cell : find_low_index (set s.window (seq_of p % 20) (some (seq_of p))) n ≡ some (n % 20)
  unfolding find_low_index
  in_cell =
      rw (v.window_free, next.number)
        (find_low_index_from-set 20 (n % 20) 0 n none (omega arith) ∙ ap some (omega arith))

  stored : get_elem? (set s.buffer s.head p) s.head ≡ some p
  stored = get_elem?-set_self s.buffer s.head p (omega (arith, v.length_buffer, v.head_is))

  -- What lies in another slot than `head`.
  others :
      (j : ℕ) (q : Packet)
      → j ≢ s.head
      → get_elem? (set s.buffer s.head p) j ≡ some q
      → (seq_of q < n) ⊎ (seq_of q ≡ 0)
  others j q ne e = v.older j q (sym (get_elem?-set_ne s.buffer s.head j p (λ x. ne (sym x))) ∙ e)

  in_slot : find_low_in_buffer (set s.buffer s.head p) n ≡ some s.head
  in_slot =
      find_low_in_buffer-first (set s.buffer s.head p) n s.head p stored next.number
        (λ j q lt e is. omega (arith, others j q (omega arith) e, v.head_is))

  reaches : server_step destaddr s p ≡ deliver_at destaddr taken p (n % 20)
  unfolding server_step take_in deliver deliver_found deliver_slot
  reaches =
      rw
        (
          eq→== (checksum_of p.packetdata) p.checksum next.right,
          not_acked,
          not_waiting,
          is_lowest,
          v.next_is,
          ==_refl n,
          in_slot,
          in_cell,
          stored,
        )
        (sends_first-nil (deliver_at destaddr taken p (n % 20)))

  abbrev pub goes_on : Server
  goes_on = record taken {
    last_sent = some (seq_of p);
    acks = set s.acks s.ack_pointer (some (seq_of p));
    ack_pointer = advance s.ack_pointer;
    request = ack_packet destaddr s.request (seq_of p);
    window = set (set s.window (seq_of p % 20) (some (seq_of p))) (n % 20) none;
    marks = set s.marks (seq_of p) 1;
  }

  fits : n < 1000 → (ltb (seq_of p) 1000 && leb p.packetdata.bytes_in_packet 900) ≡ true
  fits h = ground (arith, next.number, next.short)

  pub next_goes :
      n < 1000
      → p.packetdata.fin ≢ 1
      → server_step destaddr s p
        ≡ running goes_on (hand_out p ++ to_daemon (ack_packet destaddr s.request (seq_of p)) ∷ [])
  unfolding deliver_at acknowledge
  next_goes h ne = reaches ∙ rw (fits h, ne→== p.packetdata.fin 1 ne) refl

  pub last_goes :
      n < 1000
      → p.packetdata.fin ≡ 1
      → server_step destaddr s p ≡ exited (hand_out p ++ finish destaddr taken p)
  unfolding deliver_at
  last_goes h e = reaches ∙ rw (fits h, eq→== p.packetdata.fin 1 e) refl

  -- The mark of packet 1000 would lie behind the marks.
  pub past_marks : n ≡ 1000 → server_step destaddr s p ≡ fault
  unfolding deliver_at
  past_marks e = reaches ∙ rw (≥→ltb (seq_of p) 1000 (omega (arith, next.number))) refl

  older_after :
      (j : ℕ) (q : Packet)
      → get_elem? (set s.buffer s.head p) j ≡ some q
      → (seq_of q < n + 1) ⊎ (seq_of q ≡ 0)
  older_after j q e = elim (ℕ_discrete j s.head) [
    | yes same ↦
        let this : p ≡ q =
          some_inj (sym stored ∙ ap (get_elem? (set s.buffer s.head p)) (sym same) ∙ e) in
        inl (omega (arith, ap seq_of this, next.number))
    | no other ↦ omega (arith, others j q other e)
  ]

  pub goes_on-IsIdle : IsIdle (n + 1) goes_on
  goes_on-IsIdle = record {
    window_free = rw (v.window_free, next.number) (set-freed 20 (n % 20) n);
    length_buffer = length-set s.buffer s.head p ∙ v.length_buffer;
    head_is = unfold advance in ground (arith, v.head_is);
    next_is = omega (arith, next.number);
    acked = λ m h.
        omega (arith, holds_seq-set s.acks s.ack_pointer (seq_of p) m h, v.acked m, next.number);
    older = older_after;
  }

-- Packets from number `n` on, in order, up to one with the FIN flag.
abbrev pub InTurn : ℕ → List Packet → Type 0
InTurn n [] = ⊥
InTurn n (p ∷ ps) =
    IsNext n p
    × (n < 1000)
    × ((p.packetdata.fin ≡ 1) ⊎ ((p.packetdata.fin ≢ 1) × InTurn (n + 1) ps))

pub start_server-IsIdle : (request received : Packet) → IsIdle 0 (start_server request received)
unfolding start_server
start_server-IsIdle request received = record {
  window_free = refl;
  length_buffer = length-replicate 64 zero_packet;
  head_is = refl;
  next_is = refl;
  acked = λ m h. absurd (cc (h, one_cell-holds 64 m));
  older = λ j q e.
      let zero_there =
        get_elem?-replicate 64 j zero_packet
          (rw (length-replicate 64 zero_packet) at (get_elem?-lt (replicate 64 zero_packet) j e)) in
      inr (ap seq_of (some_inj (sym e ∙ zero_there)));
}

run_from-exits :
    (destaddr n : ℕ) (ps : List Packet) (s : Server)
    → IsIdle n s
    → InTurn n ps
    → (os : List ServerOutput) × (server_run destaddr s ps ≡ exited os)
unfolding server_run
run_from-exits destaddr n [] s v turn = absurd turn
run_from-exits destaddr n (p ∷ ps) s v (next, small, inl last) = (
  hand_out p ++ finish destaddr (taken destaddr n s p v next) p,
  then_on-exited (server_step destaddr s p) (λ s'. server_run destaddr s' ps)
      (hand_out p ++ finish destaddr (taken destaddr n s p v next) p)
      (last_goes destaddr n s p v next small last),
)
run_from-exits destaddr n (p ∷ ps) s v (next, small, inr (more, turn)) =
    let first = hand_out p ++ to_daemon (ack_packet destaddr s.request (seq_of p)) ∷ [] in
    let (os, e) =
      run_from-exits destaddr (n + 1) ps (goes_on destaddr n s p v next)
        (goes_on-IsIdle destaddr n s p v next) turn in
    (
      first ++ os,
      then_on-running (server_step destaddr s p) (λ s'. server_run destaddr s' ps)
          (goes_on destaddr n s p v next) first os (next_goes destaddr n s p v next small more) e,
    )

-- When the packets come in order, each with its checksum, at most 900 bytes and a number below 1000,
-- up to one with the FIN flag, the daemon takes them all and exits.
pub server_run_exits :
    (destaddr : ℕ) (request received : Packet) (ps : List Packet)
    → InTurn 0 ps
    → (os : List ServerOutput) × (server_run destaddr (start_server request received) ps
        ≡ exited os)
server_run_exits destaddr request received ps turn =
    run_from-exits destaddr 0 ps (start_server request received)
      (start_server-IsIdle request received) turn
