-- ===== src/Client/Sent.antt =====
-- All that the sending daemon passes to the troll.
use reliable_udp.Base.{
  Bool-cases, List, Option, [], get_elem?, if◌then◌else◌, inl, inr, ltb, ltb→lt, none, pos, refl,
  some, subst, sym, ℕ, ℤ, ◌++◌, ◌+◌, ◌==◌, ◌∷◌, ◌≡◌,
}
use reliable_udp.Client.{
  Client, ClientEvent, ClientOutput, choose_resend, client_run, client_step, free_cells, from_ftpc,
  from_timer, from_troll, is_fin2, on_ack, on_finack, on_local, on_request, on_timer, resend_chosen,
  select_fails, resend_slot, stamped, to_ftpc, to_timer, to_troll, window_empty,
}
use reliable_udp.Client.Acked.{on_ack_lem}
use reliable_udp.Client.Invariant.{Holds}
use reliable_udp.Client.Local.{on_local_lem}
use reliable_udp.Client.Retransmit.{after_resend-Holds, resend_slot_lem}
use reliable_udp.Crc.{checksum_of}
use reliable_udp.Outcome.{Outcome, exited, fault, running, sends_first, then_on}
use reliable_udp.Packet.{Packet, PacketData}
use reliable_udp.Rto.{Timeval, timeval_diff}

-- Every packet for the troll is one of the transfer, with the daemon's address and its checksum.
abbrev pub IsSent : List PacketData → ℕ → Packet → Type 0
IsSent transfer destaddr p =
    (p ≡ stamped destaddr p.packetdata)
    × (get_elem? transfer p.packetdata.sequence_num ≡ some p.packetdata)

abbrev pub AllSent : List PacketData → ℕ → List ClientOutput → Type 0
AllSent transfer destaddr [] = Unit
AllSent transfer destaddr (to_troll p ∷ os) =
    IsSent transfer destaddr p × AllSent transfer destaddr os
AllSent transfer destaddr (to_timer s t ∷ os) = AllSent transfer destaddr os
AllSent transfer destaddr (to_ftpc stop ∷ os) = AllSent transfer destaddr os

-- The file client's packets come in the order of the transfer, from number `n` on.
abbrev pub InOrder : List PacketData → ℕ → List (Timeval × ClientEvent) → Type 0
InOrder transfer n [] = Unit
InOrder transfer n ((now, select_fails) ∷ es) = InOrder transfer n es
InOrder transfer n ((now, from_ftpc d) ∷ es) =
    (get_elem? transfer n ≡ some d) × (d.sequence_num ≡ n) × InOrder transfer (n + 1) es
InOrder transfer n ((now, from_timer s) ∷ es) = InOrder transfer n es
InOrder transfer n ((now, from_troll p second) ∷ es) = InOrder transfer n es

module _ (transfer : List PacketData) (destaddr : ℕ) where
  -- A round from which the daemon goes on with `n` packets received.
  abbrev pub IsSound : ℕ → Outcome Client ClientOutput → Type 0
  IsSound n (running c os) = Holds transfer destaddr n c × AllSent transfer destaddr os
  IsSound n (exited os) = AllSent transfer destaddr os
  IsSound n fault = Unit

  -- The same of many rounds, whatever number of packets they took in.
  abbrev pub SendsOnly : Outcome Client ClientOutput → Type 0
  SendsOnly (running c os) = AllSent transfer destaddr os
  SendsOnly (exited os) = AllSent transfer destaddr os
  SendsOnly fault = Unit

  AllSent-append :
      (xs ys : List ClientOutput)
      → AllSent transfer destaddr xs
      → AllSent transfer destaddr ys
      → AllSent transfer destaddr (xs ++ ys)
  AllSent-append [] ys a b = b
  AllSent-append (to_troll p ∷ xs) ys a b = (a.0, AllSent-append xs ys a.1 b)
  AllSent-append (to_timer s t ∷ xs) ys a b = AllSent-append xs ys a b
  AllSent-append (to_ftpc stop ∷ xs) ys a b = AllSent-append xs ys a b

  pub on_local-IsSound :
      (n : ℕ) (c : Client) (now : Timeval) (d : PacketData)
      → Holds transfer destaddr n c
      → get_elem? transfer n ≡ some d
      → d.sequence_num ≡ n
      → IsSound (n + 1) (on_local destaddr c now d)
  unfolding stamped
  on_local-IsSound n c now d v at is = elim (Bool-cases (ltb c.window_pointer 20)) [
    | inl free ↦
        let (eq, v') =
          on_local_lem transfer destaddr n c d v is at (ltb→lt c.window_pointer 20 free) now in
        rw eq (
          v',
          ((unfold stamped in refl, subst (λ k. get_elem? transfer k ≡ some d) (sym is) at), tt),
        )
    | inr full ↦ unfold on_local in rw full tt
  ]

  resend_slot-IsSound :
      (n : ℕ) (c : Client) (now : Timeval) (j : ℕ) (slot : Option (Option Packet))
      → Holds transfer destaddr n c
      → get_elem? c.buffer j ≡ slot
      → IsSound n (resend_slot (record c { resend = some j }) now slot)
  resend_slot-IsSound n c now j none v at = unfold resend_slot in tt
  resend_slot-IsSound n c now j (some none) v at = unfold resend_slot in tt
  resend_slot-IsSound n c now j (some (some p)) v at =
      let (st, tr, lt, k) = v.slots j p at in
      rw (resend_slot_lem transfer destaddr n c v now j p)
        (after_resend-Holds transfer destaddr n c v now j p.packetdata.sequence_num, ((st, tr), tt))

  pub on_timer-IsSound :
      (n : ℕ) (c : Client) (now : Timeval) (s : ℕ)
      → Holds transfer destaddr n c
      → IsSound n (on_timer c now s)
  unfolding on_timer
  on_timer-IsSound n c now s v = chosen (choose_resend c s)
    where
      chosen : (j : Option ℕ) → IsSound n (resend_chosen c now j)
      chosen none = unfold resend_chosen in tt
      chosen (some j) =
          unfold resend_chosen in resend_slot-IsSound n c now j (get_elem? c.buffer j) v refl

  pub timed-Holds :
      (n : ℕ) (c : Client) (m : ℤ)
      → Holds transfer destaddr n c
      → Holds transfer destaddr n (record c { rem_time = m })
  timed-Holds n c m v = record {
    length_window = v.length_window;
    length_buffer = v.length_buffer;
    head_is = v.head_is;
    pointer_in = v.pointer_in;
    pointer_le = v.pointer_le;
    cells = v.cells;
    slots = v.slots;
    kept = v.kept;
  }

  on_finack-IsSound :
      (n : ℕ) (c : Client) (os : List ClientOutput) (second : Packet)
      → Holds transfer destaddr n c
      → AllSent transfer destaddr os
      → IsSound n (sends_first os (on_finack c second))
  unfolding on_finack sends_first
  on_finack-IsSound n c os second v a = elim (Bool-cases (is_fin2 second.packetdata.contents)) [
    | inl text ↦ rw text (v, AllSent-append os [] a tt)
    | inr other ↦
        rw other
          (AllSent-append os (to_ftpc 1 ∷ to_timer second.packetdata.ackseq (pos 0) ∷ []) a tt)
  ]

  on_ack-AllSent : (c : Client) (s : ℕ) → AllSent transfer destaddr (on_ack c s).1
  unfolding on_ack
  on_ack-AllSent c s = elim (Bool-cases (window_empty (free_cells c.window s))) [
    | inl empty ↦ rw empty tt
    | inr busy ↦ rw busy tt
  ]

  finacked :
      (n : ℕ) (o : Client × List ClientOutput) (p second : Packet)
      → Holds transfer destaddr n o.0
      → AllSent transfer destaddr o.1
      → IsSound n (
          if p.packetdata.finack == 1
          then sends_first o.1 (on_finack o.0 second)
          else running o.0 o.1)
  finacked n o p second v a = elim (Bool-cases (p.packetdata.finack == 1)) [
    | inl last ↦ rw last (on_finack-IsSound n o.0 o.1 second v a)
    | inr more ↦ rw more (v, a)
  ]

  pub on_request-IsSound :
      (n : ℕ) (c : Client) (now : Timeval) (p second : Packet)
      → Holds transfer destaddr n c
      → IsSound n (on_request c now p second)
  unfolding on_request
  on_request-IsSound n c now p second v =
      elim (Bool-cases (checksum_of p.packetdata == p.checksum)) [
        | inr garbled ↦ rw garbled (v₁, tt)
        | inl right ↦ elim (Bool-cases (p.packetdata.ack == 1)) [
          | inl acks ↦
              rw (right, acks)
                (finacked n (on_ack c₁ p.packetdata.ackseq) p second
                  (on_ack_lem transfer destaddr n c₁ v₁ p.packetdata.ackseq).3
                  (on_ack-AllSent c₁ p.packetdata.ackseq))
          | inr plain ↦ rw (right, plain) (finacked n (c₁, []) p second v₁ tt)
        ]
      ]
    where
      c₁ : Client
      c₁ = record c { rem_time = timeval_diff now c.start_time }

      v₁ : Holds transfer destaddr n c₁
      v₁ = timed-Holds n c (timeval_diff now c.start_time) v

  then_on-SendsOnly :
      (n : ℕ) (o : Outcome Client ClientOutput) (next : Client → Outcome Client ClientOutput)
      → IsSound n o
      → ((c : Client) → Holds transfer destaddr n c → SendsOnly (next c))
      → SendsOnly (then_on o next)
  unfolding then_on
  then_on-SendsOnly n (running c os) next (v, a) k = first_then os (next c) a (k c v)
    where
      first_then :
          (os : List ClientOutput) (o : Outcome Client ClientOutput)
          → AllSent transfer destaddr os
          → SendsOnly o
          → SendsOnly (sends_first os o)
      first_then os (running c ps) a b = AllSent-append os ps a b
      first_then os (exited ps) a b = AllSent-append os ps a b
      first_then os fault a b = tt
  then_on-SendsOnly n (exited os) next a k = a
  then_on-SendsOnly n fault next a k = tt

  -- Whatever timers expire and whatever packets come back, as long as the file client's packets
  -- come in the order of the transfer, every packet that the daemon passes to the troll, in any of
  -- its rounds, is a packet of the transfer with the other daemon's address and its checksum.
  pub client_run_sends :
      (n : ℕ) (c : Client) (events : List (Timeval × ClientEvent))
      → Holds transfer destaddr n c
      → InOrder transfer n events
      → SendsOnly (client_run destaddr c events)
  unfolding client_run client_step
  client_run_sends n c [] v o = tt
  client_run_sends n c ((now, select_fails) ∷ es) v o =
      then_on-SendsOnly n (exited []) (λ c'. client_run destaddr c' es) tt
        (λ c' v'. client_run_sends n c' es v' o)
  client_run_sends n c ((now, from_ftpc d) ∷ es) v (at, is, o) =
      then_on-SendsOnly (n + 1) (on_local destaddr c now d) (λ c'. client_run destaddr c' es)
        (on_local-IsSound n c now d v at is) (λ c' v'. client_run_sends (n + 1) c' es v' o)
  client_run_sends n c ((now, from_timer s) ∷ es) v o =
      then_on-SendsOnly n (on_timer c now s) (λ c'. client_run destaddr c' es)
        (on_timer-IsSound n c now s v) (λ c' v'. client_run_sends n c' es v' o)
  client_run_sends n c ((now, from_troll p second) ∷ es) v o =
      then_on-SendsOnly n (on_request c now p second) (λ c'. client_run destaddr c' es)
        (on_request-IsSound n c now p second v) (λ c' v'. client_run_sends n c' es v' o)
