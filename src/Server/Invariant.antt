-- ===== src/Server/Invariant.antt =====
-- What holds of the receiving daemon's buffer in every round: each slot that a search can find
-- holds a packet of the transfer.
use reliable_udp.Base.{
  Bool, Bool-cases, List, Option, ap, arith, false, get_elem?, get_elem?-lt, get_elem?-set_ne,
  if◌then◌else◌, inl, inr, length, length-replicate, length-set, ltb, ltb→ge, ltb→lt, none,
  replicate, set, some, some_inj, subst, sym, true, ℕ, ℕ_discrete, ◌%◌, ◌+◌, ◌<◌, ◌∙◌, ◌≡◌, ◌≢◌,
}
use reliable_udp.Crc.{checksum_of}
use reliable_udp.Packet.{Packet, PacketData}
use reliable_udp.Server.{
  Server, ack_packet, advance, holds_seq, seq_of, start_server, take_in, zero_packet,
}
use reliable_udp.Server.Search.{holds_seq-set}

-- The packets of one transfer, each at the place that its sequence number names.
abbrev pub IsGenuine : List PacketData → PacketData → Type 0
IsGenuine transfer d = get_elem? transfer d.sequence_num ≡ some d

-- What the network may do to a packet without the checksum showing it: nothing that makes a packet
-- of the transfer into another.
abbrev pub IsTrusted : List PacketData → Packet → Type 0
IsTrusted transfer p = checksum_of p.packetdata ≡ p.checksum → IsGenuine transfer p.packetdata

-- `lap` tells whether `head` has come round: before that, the slots from `head` on are still zero.
pub record Buffered (transfer : List PacketData) (lap : Bool) (s : Server) : Type 0 where
  pub length_buffer : length s.buffer ≡ 64
  pub length_window : length s.window ≡ 20
  pub head_in : s.head < 64
  pub below :
      (j : ℕ) (p : Packet)
      → j < s.head
      → get_elem? s.buffer j ≡ some p
      → IsGenuine transfer p.packetdata
  pub beyond :
      (j : ℕ) (p : Packet)
      → lap ≡ true
      → j ≢ s.head
      → get_elem? s.buffer j ≡ some p
      → IsGenuine transfer p.packetdata
  pub waiting :
      (n : ℕ)
      → lap ≡ false
      → holds_seq s.window n ≡ true
      → (j : ℕ) × (p : Packet) × (j < s.head) × (get_elem? s.buffer j ≡ some p) × (seq_of p ≡ n)

-- Between the checks and the delivery the slot at `head` is filled as well.
pub record IsReady (transfer : List PacketData) (lap : Bool) (s : Server) : Type 0 where
  pub buffered : Buffered transfer lap s
  pub all_filled :
      (j : ℕ) (p : Packet)
      → lap ≡ true
      → get_elem? s.buffer j ≡ some p
      → IsGenuine transfer p.packetdata

module _ (transfer : List PacketData) where
  pub start_server-Buffered : (a b : Packet) → Buffered transfer false (start_server a b)
  unfolding start_server
  start_server-Buffered a b = record {
    length_buffer = length-replicate 64 zero_packet;
    length_window = length-replicate {A = Option ℕ} 20 none;
    head_in = omega arith;
    below = λ j p h e. absurd (omega arith);
    beyond = λ j p h. absurd (cc);
    waiting = λ n l h. absurd (nothing n h);
  }
    where
      nothing : (n : ℕ) → holds_seq (replicate 20 none) n ≡ true → ⊥
      nothing n h = unfold holds_seq in cc

  -- Receiving into the slot at `head`.
  pub receive-Buffered :
      (lap : Bool) (s : Server) (p : Packet)
      → Buffered transfer lap s
      → Buffered transfer lap (record s { buffer = set s.buffer s.head p })
  receive-Buffered lap s p v = record {
    length_buffer = length-set s.buffer s.head p ∙ v.length_buffer;
    length_window = v.length_window;
    head_in = v.head_in;
    below = λ j q h e. v.below j q h (sym (get_elem?-set_ne s.buffer s.head j p (omega arith)) ∙ e);
    beyond = λ j q l ne e.
        v.beyond j q l ne (sym (get_elem?-set_ne s.buffer s.head j p (λ x. ne (sym x))) ∙ e);
    waiting = λ n l h.
        let (j, q, lt, at, is) = v.waiting n l h in
        (j, q, lt, get_elem?-set_ne s.buffer s.head j p (omega arith) ∙ at, is);
  }

  -- A packet of the transfer at `head` that stays there.
  known-IsReady :
      (lap : Bool) (s : Server) (p : Packet)
      → Buffered transfer lap s
      → get_elem? s.buffer s.head ≡ some p
      → IsGenuine transfer p.packetdata
      → IsReady transfer lap s
  known-IsReady lap s p v at g = record {
    buffered = v;
    all_filled = λ j q l e. elim (ℕ_discrete j s.head) [
      | yes same ↦
          subst (λ d. IsGenuine transfer d)
            (ap (λ x. x.packetdata) (some_inj (sym at ∙ ap (get_elem? s.buffer) (sym same) ∙ e))) g
      | no other ↦ v.beyond j q l other e
    ];
  }

  -- A new packet: its number goes into the window, and `head` goes on.
  abbrev stored : Server → Packet → Server
  stored s p = record s {
    window = set s.window (seq_of p % 20) (some (seq_of p));
    head = advance s.head;
  }

  next_lap : Bool → ℕ → Bool
  next_lap lap head = if ltb head 63 then lap else true

  stored_filled :
      (lap : Bool) (s : Server) (p : Packet)
      → Buffered transfer lap s
      → get_elem? s.buffer s.head ≡ some p
      → IsGenuine transfer p.packetdata
      → (j : ℕ) (q : Packet) → j < s.head + 1
      → get_elem? s.buffer j ≡ some q
      → IsGenuine transfer q.packetdata
  stored_filled lap s p v at g j q lt e = elim (ℕ_discrete j s.head) [
    | yes same ↦
        subst (λ d. IsGenuine transfer d)
          (ap (λ x. x.packetdata) (some_inj (sym at ∙ ap (get_elem? s.buffer) (sym same) ∙ e))) g
    | no other ↦ v.below j q (omega arith) e
  ]

  stored-waiting :
      (lap : Bool) (s : Server) (p : Packet)
      → Buffered transfer lap s
      → get_elem? s.buffer s.head ≡ some p
      → lap ≡ false
      → s.head < 63
      → (n : ℕ) → holds_seq (stored s p).window n ≡ true
      → (j : ℕ) × (q : Packet) × (j < s.head + 1) × (get_elem? s.buffer j ≡ some q) × (seq_of q ≡ n)
  stored-waiting lap s p v at l lt n h =
      elim (holds_seq-set s.window (seq_of p % 20) (seq_of p) n h) [
        | inl this ↦ (s.head, p, omega arith, at, this)
        | inr old ↦
            let (j, q, below, there, is) = v.waiting n l old in (j, q, omega arith, there, is)
      ]

  -- The slots go on, or come round to the first one.
  stored_on :
      (lap : Bool) (s : Server) (p : Packet)
      → Buffered transfer lap s
      → get_elem? s.buffer s.head ≡ some p
      → IsGenuine transfer p.packetdata
      → ltb s.head 63 ≡ true
      → IsReady transfer lap (record (stored s p) { head = s.head + 1 })
  stored_on lap s p v at g lt = record {
    buffered = record {
      length_buffer = v.length_buffer;
      length_window = length-set s.window (seq_of p % 20) (some (seq_of p)) ∙ v.length_window;
      head_in = ground arith;
      below = λ j q h e. stored_filled lap s p v at g j q h e;
      beyond = λ j q l ne e. (known-IsReady lap s p v at g).all_filled j q l e;
      waiting = λ n l h. stored-waiting lap s p v at l (ltb→lt s.head 63 lt) n h;
    };
    all_filled = λ j q l e. (known-IsReady lap s p v at g).all_filled j q l e;
  }

  stored_round :
      (lap : Bool) (s : Server) (p : Packet)
      → Buffered transfer lap s
      → get_elem? s.buffer s.head ≡ some p
      → IsGenuine transfer p.packetdata
      → ltb s.head 63 ≡ false
      → IsReady transfer true (record (stored s p) { head = 0 })
  stored_round lap s p v at g ge = record {
    buffered = record {
      length_buffer = v.length_buffer;
      length_window = length-set s.window (seq_of p % 20) (some (seq_of p)) ∙ v.length_window;
      head_in = omega arith;
      below = λ j q h e. absurd (omega arith);
      beyond = λ j q l ne e. filled j q e;
      waiting = λ n l h. absurd (cc);
    };
    all_filled = λ j q l e. filled j q e;
  }
    where
      filled :
          (j : ℕ) (q : Packet) → get_elem? s.buffer j ≡ some q → IsGenuine transfer q.packetdata
      filled j q e =
          stored_filled lap s p v at g j q
            (omega
              (arith, v.head_in, v.length_buffer, ltb→ge s.head 63 ge, get_elem?-lt s.buffer j e))
            e

  stored-IsReady :
      (lap : Bool) (s : Server) (p : Packet)
      → Buffered transfer lap s
      → get_elem? s.buffer s.head ≡ some p
      → IsGenuine transfer p.packetdata
      → IsReady transfer (next_lap lap s.head) (stored s p)
  unfolding next_lap advance
  stored-IsReady lap s p v at g = elim (Bool-cases (ltb s.head 63)) [
    | inl lt ↦ rw lt (stored_on lap s p v at g lt)
    | inr ge ↦ rw ge (stored_round lap s p v at g ge)
  ]

  -- The packet that was received is taken in, known, or acknowledged again.
  pub take_in-IsReady :
      (destaddr : ℕ) (lap : Bool) (s : Server) (p : Packet)
      → Buffered transfer lap s
      → get_elem? s.buffer s.head ≡ some p
      → IsGenuine transfer p.packetdata
      → (lap' : Bool) × IsReady transfer lap' (take_in destaddr s p).0
  unfolding take_in
  take_in-IsReady destaddr lap s p v at g = elim (Bool-cases (holds_seq s.acks (seq_of p))) [
    | inl acked ↦ (lap, rw acked (known_request (ack_packet destaddr s.request (seq_of p))))
    | inr fresh ↦ elim (Bool-cases (holds_seq s.window (seq_of p))) [
      | inl known ↦ (lap, rw (fresh, known) (known-IsReady lap s p v at g))
      | inr new ↦ (next_lap lap s.head, rw (fresh, new) (stored-IsReady lap s p v at g))
    ]
  ]
    where
      known_request : (r : Packet) → IsReady transfer lap (record s { request = r })
      known_request r = record {
        buffered = record {
          length_buffer = v.length_buffer;
          length_window = v.length_window;
          head_in = v.head_in;
          below = v.below;
          beyond = v.beyond;
          waiting = v.waiting;
        };
        all_filled = λ j q l e. (known-IsReady lap s p v at g).all_filled j q l e;
      }
