-- ===== src/Earlier/Tcpdc/Counted.antt =====
-- The count of packets that the earlier sending daemon waits for.
use reliable_udp.Base.{
  Bool-cases, List, Option, Option-cases, [], arith, inl, inr, lt→ltb, ≥→ltb, dec_lt, none, refl,
  some, ℕ, ◌<◌, ◌≡◌, ◌≤◌,
}
use reliable_udp.Earlier.Tcpdc.{
  Arrival, Tcpdc, TcpdcOutput, free_slot, is_received, keep_body, store_after, take_ack,
  take_packet, tcpdc_round,
}
use reliable_udp.Earlier.Tcpdc.Round.{after_ack, round_takes}
use reliable_udp.Earlier.Tcpdc.Sends.{messages}
use reliable_udp.Outcome.{Outcome, exited, fault, running, sends_first, then_on}

-- A round goes on with at most 64 packets counted, and sends none if 64 were counted before.
abbrev StaysIn : ℕ → Outcome Tcpdc TcpdcOutput → Type 0
StaysIn before (running c os) = (c.counter_buffer ≤ 64) × (64 ≤ before → messages os ≡ [])
StaysIn before (exited os) = ⊥
StaysIn before fault = Unit

after_ack-StaysIn :
    (c : Tcpdc) (b memory : List ℕ) (i : ℕ) (ack : Option (List ℕ))
    → c.counter_buffer < 64
    → (after_ack c b memory i ack).counter_buffer ≤ 64
after_ack-StaysIn c b memory i ack h = elim (Bool-cases (is_received ack)) [
  | inl some_bytes ↦ rw some_bytes (omega arith)
  | inr empty ↦ rw empty (omega arith)
]

no_slot :
    (c : Tcpdc) (b memory : List ℕ) (ack : Option (List ℕ))
    → c.counter_buffer < 64
    → store_after (free_slot c.flag_array) c.store ≡ none
    → tcpdc_round c (record { packet = some b; memory = memory; ack = ack }) ≡ fault
unfolding tcpdc_round take_packet keep_body then_on sends_first
no_slot c b memory ack h e = rw (lt→ltb c.counter_buffer 64 h, e)

no_packet :
    (c : Tcpdc) (memory : List ℕ) (ack : Option (List ℕ))
    → c.counter_buffer < 64
    → tcpdc_round c (record { packet = none; memory = memory; ack = ack }) ≡ fault
unfolding tcpdc_round take_packet then_on sends_first
no_packet c memory ack h = rw (lt→ltb c.counter_buffer 64 h)

asked :
    (c : Tcpdc) (p : Option (List ℕ)) (memory : List ℕ) (ack : Option (List ℕ))
    → c.counter_buffer < 64
    → StaysIn c.counter_buffer (tcpdc_round c (record { packet = p; memory = memory; ack = ack }))
asked c none memory ack h = rw (no_packet c memory ack h) tt
asked c (some b) memory ack h = elim (Option-cases (store_after (free_slot c.flag_array) c.store)) [
  | inl missing ↦ rw (no_slot c b memory ack h missing) tt
  | inr (i, found) ↦
      rw (round_takes c b memory i ack h found)
        (after_ack-StaysIn c b memory i ack h, λ full. absurd (omega arith))
]

stopped :
    (c : Tcpdc) (a : Arrival) → c.counter_buffer ≡ 64 → StaysIn c.counter_buffer (tcpdc_round c a)
unfolding tcpdc_round take_ack then_on sends_first
stopped c a h = elim (Bool-cases (is_received a.ack)) [
  | inl some_bytes ↦
      rw (≥→ltb c.counter_buffer 64 (omega arith), some_bytes) (omega arith, λ full. refl)
  | inr empty ↦ rw (≥→ltb c.counter_buffer 64 (omega arith), empty) (omega arith, λ full. refl)
]

-- From at most 64 counted packets any round, whatever arrives and whatever fails, either does what
-- C leaves undefined or goes on with at most 64 counted packets, and with 64 counted before it
-- sends none.
tcpdc_round-StaysIn :
    (c : Tcpdc) (a : Arrival) → c.counter_buffer ≤ 64 → StaysIn c.counter_buffer (tcpdc_round c a)
tcpdc_round-StaysIn c a h = elim (dec_lt c.counter_buffer 64) [
  | yes few ↦ asked c a.packet a.memory a.ack few
  | no full ↦ stopped c a (omega arith)
]
