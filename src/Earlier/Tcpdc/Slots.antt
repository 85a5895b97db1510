-- ===== src/Earlier/Tcpdc/Slots.antt =====
-- Where the earlier sending daemon keeps the packets. The four bytes that it takes for the number of
-- a packet are the ports of the header, so that every taken slot has the flag 0.
use reliable_udp.Base.{
  List, Option, ap, ap₂, arith, dec_lt, get_elem?, get_elem?-set_ne, get_elem?-set_self,
  if◌then◌else◌, length, length-set, ltb, lt→ltb, none, pos, refl, replicate, set, some, suc, sym,
  zero, ℕ, ◌++◌, ◌+◌, ◌-◌, ◌<◌, ◌∙◌, ◌∷◌, ◌≡◌, ◌≢◌, ◌≤◌, ≥→ltb, Bool-cases, inl, inr,
}
use mathlib.Core.Option
use reliable_udp.Earlier.Header.{read_header}
use reliable_udp.Earlier.Memory.{receive}
use reliable_udp.Earlier.Tcpdc.{
  Tcpdc, TcpdcOutput, flag_of, free_flags, free_slot, is_received, store_after, tcpdc_round,
}
use reliable_udp.Earlier.Tcpdc.Message.{flag_of-message_with, length-message_with}
use reliable_udp.Earlier.Tcpdc.Round.{after_ack, body, round_takes, sent}
use reliable_udp.Outcome.{running}

-- `k` flags are 0 and `j` are -1.
abbrev pub flags : ℕ → ℕ → List (Option ℕ)
flags k j = replicate k (some 0) ++ replicate j none

free_slot-flags : (k j : ℕ) → free_slot (flags k (suc j)) ≡ some k
unfolding free_slot
free_slot-flags zero j = refl
free_slot-flags (suc k) j = ap (Option.map suc) (free_slot-flags k j)

free_slot-full : (k : ℕ) → free_slot (flags k 0) ≡ none
unfolding free_slot
free_slot-full zero = refl
free_slot-full (suc k) = ap (Option.map suc) (free_slot-full k)

set-flags : (k j : ℕ) → set (flags k (suc j)) k (some 0) ≡ flags (suc k) j
set-flags zero j = refl
set-flags (suc k) j = ap (◌∷◌ (some 0)) (set-flags k j)

-- An acknowledgement of any other number than 0 frees no slot.
free_flags-flags : (k j s : ℕ) → s ≢ 0 → free_flags (flags k j) s ≡ flags k j
unfolding free_flags
free_flags-flags zero zero s h = refl
free_flags-flags zero (suc j) s h = ap (◌∷◌ none) (free_flags-flags zero j s h)
free_flags-flags (suc k) j s h = ap₂ (◌∷◌) (ground arith) (free_flags-flags k j s h)

-- The flags after `k` packets: at most 64 slots are taken.
abbrev pub taken_flags : ℕ → List (Option ℕ)
taken_flags k = if ltb k 64 then flags k (64 - k) else flags 64 0

taken_flags-few : (k j : ℕ) → k < 64 → 64 - k ≡ j → taken_flags k ≡ flags k j
taken_flags-few k j h e = rw (lt→ltb k 64 h) (ap (flags k) e)

taken_flags-full : (k : ℕ) → 64 ≤ k → taken_flags k ≡ flags 64 0
taken_flags-full k h = rw (≥→ltb k 64 h)

-- After `k` packets the first slots are taken, and 63 is the last one found once all are.
pub record Filled (k : ℕ) (c : Tcpdc) : Type 0 where
  pub taken : c.flag_array ≡ taken_flags k
  pub last : 64 ≤ k → c.store ≡ some 63
  pub length_storage : length c.storage_buffer ≡ 64
  pub length_body : length c.message_body ≡ 1020

-- The slot for the packet after `k` others.
abbrev pub slot_for : ℕ → ℕ
slot_for k = if ltb k 63 then k else 63

slot_for-few : (k : ℕ) → k < 64 → slot_for k ≡ k
slot_for-few k h = ground arith

slot_for-full : (k : ℕ) → 64 ≤ k → slot_for k ≡ 63
slot_for-full k h = ground arith

finds :
    (k : ℕ) (c : Tcpdc)
    → Filled k c
    → store_after (free_slot c.flag_array) c.store ≡ some (slot_for k)
unfolding store_after
finds k c v = elim (dec_lt k 64) [
  | yes few ↦
      ap (λ x. store_after (free_slot x) c.store)
        (v.taken ∙ taken_flags-few k (suc (63 - k)) few (omega arith))
      ∙ ap (λ o. store_after o c.store) (free_slot-flags k (63 - k))
      ∙ ap some (sym (slot_for-few k few))
  | no full ↦
      ap (λ x. store_after (free_slot x) c.store) (v.taken ∙ taken_flags-full k (omega arith))
      ∙ ap (λ o. store_after o c.store) (free_slot-full 64)
      ∙ v.last (omega arith)
      ∙ ap some (sym (slot_for-full k (omega arith)))
]

taken_flags-next : (k : ℕ) → k < 64 → taken_flags (k + 1) ≡ flags (suc k) (63 - k)
taken_flags-next k h = elim (dec_lt (k + 1) 64) [
  | yes few ↦
      taken_flags-few (k + 1) (63 - k) few (omega arith)
      ∙ ap (λ n. flags n (63 - k)) {y = suc k} (omega arith)
  | no full ↦
      taken_flags-full (k + 1) (omega arith)
      ∙ ap₂ flags {x = 64} {y = suc k} {u = 0} {v = 63 - k} (omega arith) (omega arith)
]

fills : (k : ℕ) → set (taken_flags k) (slot_for k) (some 0) ≡ taken_flags (k + 1)
fills k = elim (dec_lt k 64) [
  | yes few ↦
      ap₂ (λ x i. set x i (some 0)) (taken_flags-few k (suc (63 - k)) few (omega arith))
        (slot_for-few k few)
      ∙ set-flags k (63 - k)
      ∙ sym (taken_flags-next k few)
  | no full ↦
      ap₂ (λ x i. set x i (some 0)) (taken_flags-full k (omega arith))
        (slot_for-full k (omega arith))
      ∙ sym (taken_flags-full (k + 1) (omega arith))
]

free_flags-taken : (k s : ℕ) → s ≢ 0 → free_flags (taken_flags k) s ≡ taken_flags k
free_flags-taken k s h = elim (dec_lt k 64) [
  | yes few ↦ rw (lt→ltb k 64 few) (free_flags-flags k (64 - k) s h)
  | no full ↦ rw (≥→ltb k 64 (omega arith)) (free_flags-flags 64 0 s h)
]

module _ (k : ℕ) (c : Tcpdc) (bytes memory : List ℕ) (ack : Option (List ℕ)) (v : Filled k c)
    (short : length bytes ≤ 1000)
    (other : (read_header (receive ack c.ack_buffer)).sequence_number ≢ 0) where
  abbrev next_body : List ℕ
  next_body = body c bytes memory (slot_for k)

  flag_is : flag_of next_body ≡ some 0
  flag_is =
      flag_of-message_with c.message_body c.seq_number (pos (length bytes)) bytes memory
        (omega (arith, v.length_body))

  set_flags : set c.flag_array (slot_for k) (flag_of next_body) ≡ taken_flags (k + 1)
  set_flags = ap₂ (λ x f. set x (slot_for k) f) v.taken flag_is ∙ fills k

  after_flags : (after_ack c bytes memory (slot_for k) ack).flag_array ≡ taken_flags (k + 1)
  after_flags = elim (Bool-cases (is_received ack)) [
    | inl some_bytes ↦ rw some_bytes (
        ap (λ x. free_flags x (read_header (receive ack c.ack_buffer)).sequence_number) set_flags
        ∙ free_flags-taken (k + 1) (read_header (receive ack c.ack_buffer)).sequence_number other)
    | inr empty ↦ rw empty set_flags
  ]

  after_rest :
      let c' = after_ack c bytes memory (slot_for k) ack in
      (c'.storage_buffer ≡ set c.storage_buffer (slot_for k) next_body)
      × (c'.message_body ≡ next_body)
      × (c'.store ≡ some (slot_for k))
  after_rest = elim (Bool-cases (is_received ack)) [
    | inl some_bytes ↦ rw some_bytes (refl, refl, refl)
    | inr empty ↦ rw empty (refl, refl, refl)
  ]

  after_Filled : Filled (k + 1) (after_ack c bytes memory (slot_for k) ack)
  after_Filled = record {
    taken = after_flags;
    last = λ h. after_rest.2 ∙ ap some (ground arith);
    length_storage =
        ap length after_rest.0
        ∙ length-set c.storage_buffer (slot_for k) next_body
        ∙ v.length_storage;
    length_body =
        ap length after_rest.1
        ∙ length-message_with c.message_body c.seq_number (pos (length bytes)) bytes memory
        ∙ v.length_body;
  }

  slot_in : slot_for k < length c.storage_buffer
  slot_in = rw v.length_storage (ground arith)

  -- A round that takes a packet after `k` others, and whose acknowledgement has any number but 0,
  -- stores the packet in slot `k`, or, after 63 others and more, in slot 63 over the one before it;
  -- no other slot changes, and none becomes free.
  pub slots_fill :
      c.counter_buffer < 64
      → (c' : Tcpdc) × (os : List TcpdcOutput) × (tcpdc_round c
            (record { packet = some bytes; memory = memory; ack = ack })
          ≡ running c' os)
        × Filled (k + 1) c'
        × (get_elem? c'.storage_buffer (slot_for k) ≡ some c'.message_body)
        × ((j : ℕ) → j ≢ slot_for k → get_elem? c'.storage_buffer j ≡ get_elem? c.storage_buffer j)
  slots_fill few = (
    after_ack c bytes memory (slot_for k) ack,
    sent c bytes memory (slot_for k) ack,
    round_takes c bytes memory (slot_for k) ack few (finds k c v),
    after_Filled,
    ap (λ x. get_elem? x (slot_for k)) after_rest.0
        ∙ get_elem?-set_self c.storage_buffer (slot_for k) next_body slot_in
        ∙ ap some (sym after_rest.1),
    λ j ne.
        ap (λ x. get_elem? x j) after_rest.0
        ∙ get_elem?-set_ne c.storage_buffer (slot_for k) j next_body (λ e. ne (sym e)),
  )
