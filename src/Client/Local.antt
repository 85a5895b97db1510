-- ===== src/Client/Local.antt =====
-- A packet of the file client: it is stored, found again, stamped, and sent.
use reliable_udp.Base.{
  ==_refl, List, Option, [], ap, arith, false, get_elem?, get_elem?-set_ne, get_elem?-set_self,
  if◌then◌else◌, leb, length, length-set, lt→ltb, none, refl, set, some, some_inj, subst, sym, ℕ,
  ℕ_discrete, ◌%◌, ◌+◌, ◌<◌, ◌∙◌, ◌∷◌, ◌≡◌, ◌≢◌, ◌≤◌,
}
use reliable_udp.Client.{
  Client, find_in_buffer, move_on, on_local, send_slot, slot_is, stamped, to_ftpc, to_timer,
  to_troll, transmit,
}
use reliable_udp.Client.Invariant.{Holds}
use reliable_udp.Client.Search.{find_in_buffer-first}
use reliable_udp.Outcome.{running}
use reliable_udp.Packet.{Packet, PacketData}
use reliable_udp.Rto.{Timeval, rto_get}

module _ (transfer : List PacketData) (destaddr n : ℕ) (c : Client) (d : PacketData)
    (v : Holds transfer destaddr n c) (is : d.sequence_num ≡ n) (at : get_elem? transfer n ≡ some d)
    (free : c.window_pointer < 20) where
  abbrev with_packet : List (Option Packet)
  with_packet = set c.buffer c.head (some (stamped destaddr d))

  head_in : c.head < length c.buffer
  head_in = omega (arith, v.head_is, v.length_buffer)

  slot_other :
      (i : ℕ) (b : Option Packet)
      → i ≢ c.head
      → get_elem? with_packet i ≡ some b
      → slot_is b d.sequence_num ≡ false
  unfolding slot_is
  slot_other i none ne e = refl
  slot_other i (some p) ne e =
      let here = v.slots i p (
        sym (get_elem?-set_ne c.buffer c.head i (some (stamped destaddr d)) (λ q. ne (sym q)))
        ∙ e) in
      ground (arith, here.2, is)

  finds : find_in_buffer with_packet d.sequence_num ≡ c.head
  unfolding slot_is stamped
  finds =
      find_in_buffer-first with_packet d.sequence_num c.head (some (stamped destaddr d))
        (get_elem?-set_self c.buffer c.head (some (stamped destaddr d)) head_in)
        (==_refl d.sequence_num) (λ i b lt e. slot_other i b (omega arith) e)

  -- The state that the round leaves.
  abbrev pub after_local : Timeval → Client
  after_local now = record c {
    window = set c.window c.window_pointer (some d.sequence_num);
    window_pointer = c.window_pointer + 1;
    buffer = with_packet;
    head = (c.head + 1) % 64;
    rto = rto_get c.rto c.rem_time d.sequence_num;
    start_time = now;
  }

  after_cells :
      (i s : ℕ)
      → get_elem? (set c.window c.window_pointer (some d.sequence_num)) i ≡ some (some s)
      → (i < c.window_pointer + 1) × (s + (c.window_pointer + 1) ≡ n + 1 + i)
  after_cells i s e = elim (ℕ_discrete i c.window_pointer) [
    | yes same ↦ (
      omega arith,
      (let this : d.sequence_num ≡ s = some_inj (
            some_inj (
              sym (
                get_elem?-set_self c.window c.window_pointer (some d.sequence_num)
                  (omega (arith, v.length_window)))
              ∙ ap (get_elem? (set c.window c.window_pointer (some d.sequence_num))) (sym same)
              ∙ e)) in
          omega arith),
    )
    | no other ↦
        let old = v.cells i s (
          sym (
            get_elem?-set_ne c.window c.window_pointer i (some d.sequence_num) (λ q. other (sym q)))
          ∙ e) in
        omega arith
  ]

  stored_here : get_elem? with_packet c.head ≡ some (some (stamped destaddr d))
  stored_here = get_elem?-set_self c.buffer c.head (some (stamped destaddr d)) head_in

  after_slots :
      (j : ℕ) (p : Packet)
      → get_elem? with_packet j ≡ some (some p)
      → (p ≡ stamped destaddr p.packetdata)
        × (get_elem? transfer p.packetdata.sequence_num ≡ some p.packetdata)
        × (p.packetdata.sequence_num < n + 1)
        × (j ≡ p.packetdata.sequence_num % 64)
  unfolding stamped
  after_slots j p e = elim (ℕ_discrete j c.head) [
    | yes same ↦
        subst
          (λ q.
            (q ≡ stamped destaddr q.packetdata)
            × (get_elem? transfer q.packetdata.sequence_num ≡ some q.packetdata)
            × (q.packetdata.sequence_num < n + 1)
            × (j ≡ q.packetdata.sequence_num % 64))
          (some_inj (some_inj (sym stored_here ∙ ap (get_elem? with_packet) (sym same) ∙ e)))
          (
            refl,
            subst (λ k. get_elem? transfer k ≡ some d) (sym is) at,
            omega arith,
            omega (arith, v.head_is),
          )
    | no other ↦
        let (a, b, lt, k) = v.slots j p (
          sym (get_elem?-set_ne c.buffer c.head j (some (stamped destaddr d)) (λ q. other (sym q)))
          ∙ e) in
        (a, b, omega arith, k)
  ]

  after_kept :
      (s : ℕ)
      → s < n + 1
      → n + 1 ≤ s + 64
      → (p : Packet) × (get_elem? with_packet (s % 64) ≡ some (some p))
        × (p.packetdata.sequence_num ≡ s)
  unfolding stamped
  after_kept s lt le = elim (ℕ_discrete s n) [
    | yes same ↦ (
      stamped destaddr d,
      ap (get_elem? with_packet) (omega (arith, v.head_is)) ∙ stored_here,
      is ∙ sym same,
    )
    | no other ↦
        let (p, there, k) = v.kept s (omega arith) (omega arith) in
        (
          p,
          get_elem?-set_ne c.buffer c.head (s % 64) (some (stamped destaddr d))
                (omega (arith, v.head_is))
              ∙ there,
          k,
        )
  ]

  pub after_local-Holds : (now : Timeval) → Holds transfer destaddr (n + 1) (after_local now)
  after_local-Holds now = record {
    length_window = length-set c.window c.window_pointer (some d.sequence_num) ∙ v.length_window;
    length_buffer = length-set c.buffer c.head (some (stamped destaddr d)) ∙ v.length_buffer;
    head_is = omega (arith, v.head_is);
    pointer_in = omega arith;
    pointer_le = omega (arith, v.pointer_le);
    cells = after_cells;
    slots = after_slots;
    kept = after_kept;
  }

  sends :
      (now : Timeval) (found : Option (Option Packet))
      → found ≡ some (some (stamped destaddr d))
      → send_slot
          (record c {
            window = set c.window c.window_pointer (some d.sequence_num);
            buffer = with_packet;
          })
          now
          found
        ≡ running (after_local now) (
            to_troll (stamped destaddr d)
            ∷ to_timer d.sequence_num (rto_get c.rto c.rem_time d.sequence_num)
            ∷ to_ftpc (if leb 19 (c.window_pointer + 1) then 1 else 0)
            ∷ [])
  unfolding send_slot transmit move_on stamped
  sends now found e = rw e

  -- The next packet of the transfer, while the window has a free cell, is sent to the troll with
  -- the other daemon's address and its checksum, its timer is started, and the file client is told
  -- to stop from the nineteenth outstanding packet on; window and buffer hold the packet.
  pub on_local_lem :
      (now : Timeval)
      → (on_local destaddr c now d
          ≡ running (after_local now) (
              to_troll (stamped destaddr d)
              ∷ to_timer n (rto_get c.rto c.rem_time n)
              ∷ to_ftpc (if leb 19 (c.window_pointer + 1) then 1 else 0)
              ∷ []))
        × Holds transfer destaddr (n + 1) (after_local now)
  unfolding on_local
  on_local_lem now = (
    rw (lt→ltb c.window_pointer 20 free) (
        sends now (get_elem? with_packet (find_in_buffer with_packet d.sequence_num))
          (ap (get_elem? with_packet) finds ∙ stored_here)
        ∙ ap
            (λ k. running (after_local now) (
              to_troll (stamped destaddr d)
              ∷ to_timer k (rto_get c.rto c.rem_time k)
              ∷ to_ftpc (if leb 19 (c.window_pointer + 1) then 1 else 0)
              ∷ []))
            is),
    after_local-Holds now,
  )
