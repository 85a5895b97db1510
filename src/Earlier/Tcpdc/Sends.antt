-- ===== src/Earlier/Tcpdc/Sends.antt =====
-- What the earlier sending daemon passes to the troll.
use reliable_udp.Base.{
  List, Option, [], ap, append_assoc, arith, false, length, length-append, ltb_ℤ, none, pos, refl,
  some, sym, true, ℕ, ◌++◌, ◌+ℤ◌, ◌+◌, ◌<◌, ◌∙◌, ◌∷◌, ◌≡◌, ◌≤◌,
}
use reliable_udp.Earlier.Blocks.{Fills, delivered}
use reliable_udp.Earlier.Header.{header_bytes}
use reliable_udp.Earlier.Header.Layout.{length-header_bytes}
use reliable_udp.Earlier.Tcpdc.{
  Arrival, Tcpdc, TcpdcOutput, ack_to_timer, data_to_timer, free_slot, insert_tcp_header,
  is_received, status, store_after, tcpdc_loop, tcpdc_round, to_copy, to_ftpc, to_troll,
}
use reliable_udp.Earlier.Tcpdc.Message.{length-message_with, take-message_with}
use reliable_udp.Earlier.Tcpdc.Round.{after_ack, message, round_takes, sent}
use reliable_udp.Earlier.Tcpds.Passes.{WrapAll, Wraps}
use reliable_udp.Outcome.{exited, running, then_on-running}

abbrev pub messages : List TcpdcOutput → List (List ℕ)
messages [] = []
messages (to_troll m ∷ os) = m ∷ messages os
messages (to_copy b ∷ os) = messages os
messages (data_to_timer s n ∷ os) = messages os
messages (ack_to_timer a ∷ os) = messages os
messages (to_ftpc f ∷ os) = messages os
messages (status n ∷ os) = messages os

-- These packets come from the file client, and each is followed by an acknowledgement of at least
-- one byte.
abbrev pub Acknowledged : List Arrival → List (List ℕ) → Type 0
Acknowledged [] [] = Unit
Acknowledged [] (b ∷ bs) = ⊥
Acknowledged (a ∷ arrivals) [] = ⊥
Acknowledged (a ∷ arrivals) (b ∷ bs) =
    (a.packet ≡ some b) × (is_received a.ack ≡ true) × Acknowledged arrivals bs

-- The state can take and send a packet.
pub record CanSend (c : Tcpdc) : Type 0 where
  pub length_body : length c.message_body ≡ 1020
  pub length_header : length c.message_header ≡ 16
  pub few : c.counter_buffer < 64
  pub slot : (i : ℕ) × (store_after (free_slot c.flag_array) c.store ≡ some i)

-- Once a slot was found there always is one.
store_after-some : (o : Option ℕ) (i : ℕ) → (j : ℕ) × (store_after o (some i) ≡ some j)
unfolding store_after
store_after-some none i = (i, refl)
store_after-some (some j) i = (j, refl)

module _ (c : Tcpdc) (b memory : List ℕ) (v : CanSend c) (short : length b ≤ 1000) where
  message-Wraps : Wraps (some (message c b memory v.slot.0)) b
  message-Wraps =
      let (crc16, e) =
        take-message_with c.message_body c.seq_number (pos (length b)) b memory
          (omega (arith, v.length_body)) in
      let header = header_bytes (insert_tcp_header c.seq_number crc16) in
      (
        c.message_header ++ header,
        length-append c.message_header header
            ∙ omega (
              arith,
              v.length_header,
              length-header_bytes (insert_tcp_header c.seq_number crc16),
            ),
        ap some (ap (λ x. c.message_header ++ x) e ∙ sym (append_assoc c.message_header header b)),
      )

  after_ack-CanSend :
      (ack : Option (List ℕ)) → is_received ack ≡ true → CanSend (after_ack c b memory v.slot.0 ack)
  after_ack-CanSend ack h = rw h (record {
    length_body =
        length-message_with c.message_body c.seq_number (pos (length b)) b memory ∙ v.length_body;
    length_header = v.length_header;
    few = omega (arith, v.few);
    slot = store_after-some _ v.slot.0;
  })

  counted_after :
      (ack : Option (List ℕ))
      → is_received ack ≡ true
      → (after_ack c b memory v.slot.0 ack).bytes_received ≡ c.bytes_received +ℤ pos (length b)
  counted_after ack h = rw h

  size_after :
      (ack : Option (List ℕ))
      → is_received ack ≡ true
      → (after_ack c b memory v.slot.0 ack).file_size ≡ c.file_size
  size_after ack h = rw h

tcpdc_loop-done :
    (c : Tcpdc) (arrivals : List Arrival)
    → ltb_ℤ c.bytes_received c.file_size ≡ false
    → tcpdc_loop c arrivals ≡ exited []
unfolding tcpdc_loop
tcpdc_loop-done c [] h = rw h
tcpdc_loop-done c (a ∷ arrivals) h = rw h

tcpdc_loop-more :
    (c c' : Tcpdc) (a : Arrival) (arrivals : List Arrival) (os ps : List TcpdcOutput)
    → ltb_ℤ c.bytes_received c.file_size ≡ true
    → tcpdc_round c a ≡ running c' os
    → tcpdc_loop c' arrivals ≡ exited ps
    → tcpdc_loop c (a ∷ arrivals) ≡ exited (os ++ ps)
unfolding tcpdc_loop
tcpdc_loop-more c c' a arrivals os ps h e f =
    rw h (then_on-running (tcpdc_round c a) (λ t. tcpdc_loop t arrivals) c' os ps e f)

with_packet :
    (a : Arrival) (b : List ℕ)
    → a.packet ≡ some b
    → a ≡ record { packet = some b; memory = a.memory; ack = a.ack }
with_packet a b e = λ i. record { packet = e i; memory = a.memory; ack = a.ack }

-- When the file client's packets fill the file up to its size, and after each of them some
-- acknowledgement of at least one byte comes, whatever it says, the daemon passes each to the troll
-- behind 36 bytes of address and header, in order, and its loop ends.
pub tcpdc_loop_sends :
    (bs : List (List ℕ)) (arrivals rest : List Arrival) (c : Tcpdc) (counted size : ℕ)
    → CanSend c
    → c.bytes_received ≡ pos counted
    → c.file_size ≡ pos size
    → Acknowledged arrivals bs
    → Fills counted size bs
    → (os : List TcpdcOutput) × (tcpdc_loop c (arrivals ++ rest) ≡ exited os)
      × WrapAll (delivered (messages os)) bs
tcpdc_loop_sends [] [] rest c counted size v r f w h =
    ([], tcpdc_loop-done c rest (rw (r, f) (ground arith)), tt)
tcpdc_loop_sends [] (a ∷ arrivals) rest c counted size v r f w h = elim w [ ]
tcpdc_loop_sends (b ∷ bs) [] rest c counted size v r f w h = elim w [ ]
tcpdc_loop_sends (b ∷ bs) (a ∷ arrivals) rest c counted size v r f (is, acked, w) h =
    let c' = after_ack c b a.memory v.slot.0 a.ack in
    let (os, e, wraps) =
      tcpdc_loop_sends bs arrivals rest c' (counted + length b) size
        (after_ack-CanSend c b a.memory v h.1 a.ack acked)
        (counted_after c b a.memory v h.1 a.ack acked ∙ rw r (unfold ◌+ℤ◌ in ground arith))
        (size_after c b a.memory v h.1 a.ack acked ∙ f) w h.2 in
    (
      sent c b a.memory v.slot.0 a.ack ++ os,
      tcpdc_loop-more c c' a (arrivals ++ rest) (sent c b a.memory v.slot.0 a.ack) os
          (rw (r, f) (ground arith))
          (ap (tcpdc_round c) (with_packet a b is)
            ∙ round_takes c b a.memory v.slot.0 a.ack v.few v.slot.1)
          e,
      (message-Wraps c b a.memory v h.1, wraps),
    )
