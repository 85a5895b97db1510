-- ===== src/EndToEnd/Signals.antt =====
-- The sending daemon and the signals that it gives the file client.
use reliable_udp.Base.{
  List, [], arith, eq→==, get_elem?, if◌then◌else◌, inr, leb, length, ne→==, pos, refl, some, true,
  ℕ, ◌++◌, ◌+◌, ◌-◌, ◌<◌, ◌∷◌, ◌≡◌, ◌≢◌, ◌≤◌, ≥→ltb, subst, sym, Bool-cases, inl,
}
use reliable_udp.Client.{
  Client, ClientEvent, ClientOutput, client_run, client_step, free_cells, from_ftpc, from_timer,
  from_troll, select_fails, on_ack, on_local, on_request, stamped, to_ftpc, to_timer, to_troll,
  window_empty,
}
use reliable_udp.Client.Acked.{freed-Holds}
use reliable_udp.Client.Invariant.{Holds}
use reliable_udp.Client.Local.{after_local, on_local_lem}
use reliable_udp.Client.Search.{get_elem?-free_cells, window_empty-none}
use reliable_udp.Client.Sent.{InOrder, timed-Holds}
use reliable_udp.Crc.{checksum_of}
use reliable_udp.FtpClient.Transfer.{go_signals}
use reliable_udp.Outcome.{Outcome, exited, fault, running, sends_first, then_on}
use reliable_udp.Packet.{Packet, PacketData}
use reliable_udp.System.{controls}
use reliable_udp.Rto.{Timeval, rto_get, timeval_diff}

-- What a round leaves, with the signals to go on that it gave added to those not used yet.
abbrev pub After : Outcome Client ClientOutput → (Client → ℕ → Type 0) → ℕ → Type 0
After (running c os) next unused = next c (unused + go_signals (controls os))
After (exited os) next unused = Unit
After fault next unused = Unit

-- Each packet of the file client follows a signal to go on that no packet before it has used.
abbrev pub Obeys : ℕ → List (Timeval × ClientEvent) → Client → ℕ → Type 0
Obeys destaddr [] c unused = Unit
Obeys destaddr ((now, select_fails) ∷ es) c unused =
    After (client_step destaddr c now select_fails) (Obeys destaddr es) unused
Obeys destaddr ((now, from_ftpc d) ∷ es) c unused =
    (0 < unused) × After (client_step destaddr c now (from_ftpc d)) (Obeys destaddr es) (unused - 1)
Obeys destaddr ((now, from_timer s) ∷ es) c unused =
    After (client_step destaddr c now (from_timer s)) (Obeys destaddr es) unused
Obeys destaddr ((now, from_troll p second) ∷ es) c unused =
    After (client_step destaddr c now (from_troll p second)) (Obeys destaddr es) unused

abbrev pub locals : Timeval → List PacketData → List (Timeval × ClientEvent)
locals now [] = []
locals now (d ∷ ds) = (now, from_ftpc d) ∷ locals now ds

-- These are the packets of the transfer from number `n` on.
abbrev pub Follow : List PacketData → ℕ → List PacketData → Type 0
Follow transfer n [] = Unit
Follow transfer n (d ∷ ds) =
    (get_elem? transfer n ≡ some d) × (d.sequence_num ≡ n) × Follow transfer (n + 1) ds

-- A signal comes with each packet until the window is full; then free cells are as good.
signal_given :
    (p : ℕ) → go_signals ((if leb 19 (p + 1) then 1 else 0) ∷ []) + (p + 1 - 18) ≡ 1 + (p - 18)
signal_given p = elim (Bool-cases (leb 19 (p + 1))) [
  | inl stop ↦ rw stop (ground arith)
  | inr go ↦ rw go (ground arith)
]

module _ (transfer : List PacketData) (destaddr : ℕ) where
  -- A run in which the file client sends its packets in order, obeys the signals, and the daemon
  -- comes to a fault.
  abbrev pub Overruns : List (Timeval × ClientEvent) → ℕ → Client → ℕ → Type 0
  Overruns es n c unused =
      InOrder transfer n es × Obeys destaddr es c unused × (client_run destaddr c es ≡ fault)

  -- One packet that the daemon sends.
  packet_step :
      (rest : List (Timeval × ClientEvent)) (n unused : ℕ) (c c' : Client) (now : Timeval)
      (d : PacketData) (os : List ClientOutput)
      → get_elem? transfer n ≡ some d
      → d.sequence_num ≡ n
      → 0 < unused
      → client_step destaddr c now (from_ftpc d) ≡ running c' os
      → Overruns rest (n + 1) c' (unused - 1 + go_signals (controls os))
      → Overruns ((now, from_ftpc d) ∷ rest) n c unused
  unfolding client_run then_on sends_first
  packet_step rest n unused c c' now d os at is some_left e (order, obeys, ends) =
      ((at, is, order), (some_left, rw e obeys), rw (e, ends) refl)

  -- A packet that comes back.
  pub reply_step :
      (rest : List (Timeval × ClientEvent)) (n unused : ℕ) (c c' : Client) (now : Timeval)
      (p second : Packet) (os : List ClientOutput)
      → client_step destaddr c now (from_troll p second) ≡ running c' os
      → Overruns rest n c' (unused + go_signals (controls os))
      → Overruns ((now, from_troll p second) ∷ rest) n c unused
  unfolding client_run then_on sends_first
  reply_step rest n unused c c' now p second os e (order, obeys, ends) =
      (order, rw e obeys, rw (e, ends) refl)

  -- Packets in a row, as long as there are free cells and signals for them.
  pub burst :
      (ds : List PacketData) (rest : List (Timeval × ClientEvent)) (n unused : ℕ) (c : Client)
      (now : Timeval)
      → Holds transfer destaddr n c
      → Follow transfer n ds
      → c.window_pointer + length ds ≤ 20
      → (c.window_pointer + length ds - 18) < unused + (c.window_pointer - 18)
      → ((c' : Client) (left : ℕ)
          → Holds transfer destaddr (n + length ds) c'
          → c'.window_pointer ≡ c.window_pointer + length ds
          → unused + (c.window_pointer - 18) ≤ left + (c'.window_pointer - 18)
          → Overruns rest (n + length ds) c' left)
      → Overruns (locals now ds ++ rest) n c unused
  burst [] rest n unused c now v f h k next =
      subst (λ m. Overruns rest m c unused) {x = n + 0} {y = n} (omega arith)
        (next c unused
          (subst (λ m. Holds transfer destaddr m c) {x = n} {y = n + 0} (omega arith) v)
          (omega arith) (omega arith))
  burst (d ∷ ds) rest n unused c now v (at, is, f) h k next =
      let c₁ = after_local transfer destaddr n c d v is at (omega arith) now in
      let (e, v₁) = on_local_lem transfer destaddr n c d v is at (omega arith) now in
      let given = signal_given c.window_pointer in
      let left₁ = unused - 1 + go_signals ((if leb 19 (c.window_pointer + 1) then 1 else 0) ∷ []) in
      let same : n + 1 + length ds ≡ n + length (d ∷ ds) = omega arith in
      packet_step (locals now ds ++ rest) n unused c c₁ now d
        (to_troll (stamped destaddr d)
          ∷ to_timer n (rto_get c.rto c.rem_time n)
          ∷ to_ftpc (if leb 19 (c.window_pointer + 1) then 1 else 0)
          ∷ [])
        at is (omega arith) (unfold client_step in e)
        (burst ds rest (n + 1) left₁ c₁ now v₁ f (omega arith) (omega arith)
          (λ c' left v' p' enough.
            subst (λ m. Overruns rest m c' left) (sym same)
              (next c' left (subst (λ m. Holds transfer destaddr m c') same v') (omega arith)
                (omega arith))))

  -- A packet past the window's last cell is written behind the array.
  pub overflows :
      (c : Client) (now : Timeval) (d : PacketData) (n unused : ℕ)
      → Follow transfer n (d ∷ [])
      → 20 ≤ c.window_pointer
      → 0 < unused
      → Overruns (locals now (d ∷ [])) n c unused
  unfolding client_run client_step on_local then_on
  overflows c now d n unused f h k =
      rw (≥→ltb c.window_pointer 20 h) ((f.0, f.1, tt), (k, tt), refl)

  alone :
      (n : ℕ) (c : Client)
      → Holds transfer destaddr n c
      → c.window_pointer ≡ 1
      → (s : ℕ) → s + 1 ≡ n
      → window_empty (free_cells c.window s) ≡ true
  alone n c v one s is = window_empty-none (free_cells c.window s) (λ i r e.
      let (at, ne) = get_elem?-free_cells c.window s i r e in
      let (lt, sum) = v.cells i r at in ne (omega arith))

  -- The acknowledgement of the packet that is alone in the window starts the window over, and tells
  -- the file client to go on.
  pub alone_acked :
      (n : ℕ) (c : Client) (now : Timeval) (p second : Packet)
      → Holds transfer destaddr n c
      → c.window_pointer ≡ 1
      → checksum_of p.packetdata ≡ p.checksum
      → p.packetdata.ack ≡ 1
      → p.packetdata.finack ≢ 1
      → p.packetdata.ackseq + 1 ≡ n
      → (c' : Client) × (client_step destaddr c now (from_troll p second)
          ≡ running c' (to_timer p.packetdata.ackseq (pos 0) ∷ to_ftpc 0 ∷ []))
        × Holds transfer destaddr n c'
        × (c'.window_pointer ≡ 0)
        × (c'.rto ≡ c.rto)
        × (c'.rem_time ≡ timeval_diff now c.start_time)
  alone_acked n c now p second v one right acks last is =
      let s = p.packetdata.ackseq in
      let m = timeval_diff now c.start_time in
      let w = free_cells c.window s in
      let empty : window_empty w ≡ true = alone n c v one s is in
      (
        record c { rem_time = m; window = w; window_pointer = 0 },
        unfold client_step in
            unfold on_request in
            unfold on_ack in
            rw
              (
                eq→== (checksum_of p.packetdata) p.checksum right,
                eq→== p.packetdata.ack 1 acks,
                ne→== p.packetdata.finack 1 last,
                empty,
              )
              refl,
        freed-Holds transfer destaddr n (record c { rem_time = m })
            (timed-Holds transfer destaddr n c m v) s 0 (inr (refl, empty)),
        refl,
        refl,
        refl,
      )

  -- The same in a run.
  pub acked_alone :
      (rest : List (Timeval × ClientEvent)) (n unused : ℕ) (c : Client) (now : Timeval)
      (p second : Packet)
      → Holds transfer destaddr n c
      → c.window_pointer ≡ 1
      → checksum_of p.packetdata ≡ p.checksum
      → p.packetdata.ack ≡ 1
      → p.packetdata.finack ≢ 1
      → p.packetdata.ackseq + 1 ≡ n
      → ((c' : Client)
          → Holds transfer destaddr n c'
          → c'.window_pointer ≡ 0
          → Overruns rest n c' (unused + 1))
      → Overruns ((now, from_troll p second) ∷ rest) n c unused
  acked_alone rest n unused c now p second v one right acks last is next =
      let (c', e, v', zero_pointer, same_rto, measured) =
        alone_acked n c now p second v one right acks last is in
      reply_step rest n unused c c' now p second
        (to_timer p.packetdata.ackseq (pos 0) ∷ to_ftpc 0 ∷ []) e (next c' v' zero_pointer)
