-- ===== src/Client/Retransmit.antt =====
-- An expired timer: the packet with its number is found in the buffer and sent again.
use reliable_udp.Base.{
  ==_refl, ==→eq, Bool-cases, List, Option, [], ap, ap₂, arith, false, get_elem?, inl, inr, none,
  refl, some, subst, true, ℕ, ◌%◌, ◌==◌, ◌∙◌, ◌∷◌, ◌≡◌, ◌≢◌,
}
use reliable_udp.Client.{
  Client, choose_resend, on_timer, resend_chosen, resend_slot, slot_is, stamped, to_timer, to_troll,
  transmit, window_holds,
}
use reliable_udp.Client.Invariant.{Holds}
use reliable_udp.Client.Search.{last_slot_from-only, window_holds-get}
use reliable_udp.Outcome.{running}
use reliable_udp.Packet.{Packet, PacketData}
use reliable_udp.Rto.{Timeval, rto_get}

module _ (transfer : List PacketData) (destaddr n : ℕ) (c : Client)
    (v : Holds transfer destaddr n c) where
  slot_unique :
      (s i : ℕ) (b : Option Packet)
      → i ≢ s % 64
      → get_elem? c.buffer i ≡ some b
      → slot_is b s ≡ false
  unfolding slot_is
  slot_unique s i none ne e = refl
  slot_unique s i (some p) ne e =
      let here = v.slots i p e in
      elim (Bool-cases (p.packetdata.sequence_num == s)) [
        | inl same ↦
            absurd (ne (here.3 ∙ ap (λ k. k % 64) (==→eq p.packetdata.sequence_num s same)))
        | inr other ↦ other
      ]

  -- A packet that the window holds is one of the last 20, so that the buffer still holds it.
  outstanding :
      (s : ℕ)
      → window_holds c.window s ≡ true
      → (p : Packet) × (get_elem? c.buffer (s % 64) ≡ some (some p))
        × (p.packetdata.sequence_num ≡ s)
  outstanding s h =
      let (i, e) = window_holds-get c.window s h in
      let (lt, sum) = v.cells i s e in
      v.kept s (omega (arith, v.pointer_in)) (omega (arith, v.pointer_in))

  chosen : (s : ℕ) → window_holds c.window s ≡ true → choose_resend c s ≡ some (s % 64)
  unfolding choose_resend slot_is
  chosen s h =
      let (p, at, is) = outstanding s h in
      rw h (
        last_slot_from-only 0 c.resend c.buffer s (s % 64) (some p) at (rw is (==_refl s))
          (slot_unique s)
        ∙ ap some (omega arith))

  abbrev pub after_resend : Timeval → ℕ → ℕ → Client
  after_resend now j s = record c {
    resend = some j;
    rto = rto_get c.rto c.rem_time s;
    start_time = now;
  }

  pub after_resend-Holds :
      (now : Timeval) (j s : ℕ) → Holds transfer destaddr n (after_resend now j s)
  after_resend-Holds now j s = record {
    length_window = v.length_window;
    length_buffer = v.length_buffer;
    head_is = v.head_is;
    pointer_in = v.pointer_in;
    pointer_le = v.pointer_le;
    cells = v.cells;
    slots = v.slots;
    kept = v.kept;
  }

  pub resend_slot_lem :
      (now : Timeval) (j : ℕ) (p : Packet)
      → resend_slot (record c { resend = some j }) now (some (some p))
        ≡ running (after_resend now j p.packetdata.sequence_num) (
            to_troll p
            ∷ to_timer p.packetdata.sequence_num
                (rto_get c.rto c.rem_time p.packetdata.sequence_num)
            ∷ [])
  unfolding resend_slot transmit
  resend_slot_lem now j p = refl

  -- When the timer of an unacknowledged packet expires, exactly that packet of the transfer is sent
  -- again, with the other daemon's address and its checksum, and its timer is started again; window
  -- and buffer hold what they held.
  pub on_timer_lem :
      (now : Timeval) (s : ℕ)
      → window_holds c.window s ≡ true
      → (d : PacketData) × (get_elem? transfer s ≡ some d)
        × (on_timer c now s
            ≡ running
                (after_resend now (s % 64) s)
                (to_troll (stamped destaddr d) ∷ to_timer s (rto_get c.rto c.rem_time s) ∷ []))
        × Holds transfer destaddr n (after_resend now (s % 64) s)
  unfolding on_timer resend_chosen
  on_timer_lem now s h =
      let (p, at, is) = outstanding s h in
      let (st, tr, lt, k) = v.slots (s % 64) p at in
      (
        p.packetdata,
        subst (λ i. get_elem? transfer i ≡ some p.packetdata) is tr,
        rw (chosen s h) (
            ap (resend_slot (record c { resend = some (s % 64) }) now) at
            ∙ resend_slot_lem now (s % 64) p
            ∙ ap₂
                (λ i q.
                  running (after_resend now (s % 64) i)
                    (to_troll q ∷ to_timer i (rto_get c.rto c.rem_time i) ∷ []))
                is st),
        after_resend-Holds now (s % 64) s,
      )
