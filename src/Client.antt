-- ===== src/Client.antt =====
-- The daemon on the sending side, tcpdclient.c. A round of its loop serves what `select` reports:
-- a packet of the file client, an expired timer, a packet of the other daemon. `none` in `window`
-- is -1, and in `buffer` a slot whose sequence number is still -1.
pub mod Search
pub mod Invariant
pub mod Local
pub mod Retransmit
pub mod Acked
pub mod Sent
mod Tests
use reliable_udp.Base.{
  Bool, List, Option, [], false, get_elem?, if◌then◌else◌, is_seq, leb, ltb, none, pos, replicate,
  set, some, suc, true, ℕ, ℤ, ◌%◌, ◌&&◌, ◌++◌, ◌+◌, ◌==◌, ◌||◌, ◌∷◌,
}
use reliable_udp.Crc.{checksum_of}
use reliable_udp.Outcome.{Outcome, exited, fault, running, sends_first, then_on}
use reliable_udp.Packet.{Packet, PacketData}
use reliable_udp.Rto.{Eighths, Timeval, initial_rto, rto_get, timeval_diff}

pub record Client : Type 0 where
  pub window : List (Option ℕ)
  pub window_pointer : ℕ
  pub buffer : List (Option Packet)
  pub head : ℕ
  -- `resendpacket`, which is unset until a packet is first resent.
  pub resend : Option ℕ
  pub rto : Eighths
  pub rem_time : ℤ
  pub start_time : Timeval

-- To the troll, to the timer process (a time of zero cancels), and the stop flag to the file client.
pub data ClientOutput : Type 0 where
  to_troll : Packet → ClientOutput
  to_timer : ℕ → Eighths → ClientOutput
  to_ftpc : ℕ → ClientOutput

unfoldable pub start_client : Timeval → Client
start_client unset = record {
  window = replicate 20 none;
  window_pointer = 0;
  buffer = replicate 64 none;
  head = 0;
  resend = none;
  rto = initial_rto;
  rem_time = pos 0;
  start_time = unset;
}

abbrev pub window_front : ℕ
window_front = 19

-- A slot holds a packet with this sequence number.
unfoldable pub slot_is : Option Packet → ℕ → Bool
slot_is none s = false
slot_is (some p) s = p.packetdata.sequence_num == s

-- `find_in_buffer`: the first such slot, or 64.
unfoldable pub find_in_buffer : List (Option Packet) → ℕ → ℕ
find_in_buffer [] s = 0
find_in_buffer (c ∷ cs) s = let rest = find_in_buffer cs s in if slot_is c s then 0 else suc rest

-- The loop over the window for an expired timer, and the one over the buffer inside it: the last
-- slot that holds the packet, if the window holds its number.
unfoldable pub window_holds : List (Option ℕ) → ℕ → Bool
window_holds [] s = false
window_holds (c ∷ cs) s = is_seq c s || window_holds cs s

unfoldable pub last_slot_from : ℕ → Option ℕ → List (Option Packet) → ℕ → Option ℕ
last_slot_from j found [] s = found
last_slot_from j found (c ∷ cs) s =
    last_slot_from (j + 1) (if slot_is c s then some j else found) cs s

unfoldable pub choose_resend : Client → ℕ → Option ℕ
choose_resend c s =
    if window_holds c.window s then last_slot_from 0 c.resend c.buffer s else c.resend

-- The loop that frees an acknowledged packet's cells.
unfoldable pub free_cells : List (Option ℕ) → ℕ → List (Option ℕ)
free_cells [] s = []
free_cells (c ∷ cs) s = (if is_seq c s then none else c) ∷ free_cells cs s

unfoldable pub window_empty : List (Option ℕ) → Bool
window_empty [] = true
window_empty (none ∷ cs) = window_empty cs
window_empty (some s ∷ cs) = false

-- A packet goes to the troll and its timer starts.
unfoldable pub transmit : Client → Timeval → Packet → Client × List ClientOutput
transmit c now p =
    let timeout = rto_get c.rto c.rem_time p.packetdata.sequence_num in
    (
      record c { rto = timeout; start_time = now },
      to_troll p ∷ to_timer p.packetdata.sequence_num timeout ∷ [],
    )

-- After a packet is sent: `window_pointer` and `head` go on, and the file client is told to sleep
-- if the window is full.
unfoldable pub move_on : Client → Client × List ClientOutput
move_on c =
    let next = c.window_pointer + 1 in
    (
      record c { window_pointer = next; head = (c.head + 1) % 64 },
      to_ftpc (if leb window_front next then 1 else 0) ∷ [],
    )

unfoldable pub send_slot : Client → Timeval → Option (Option Packet) → Outcome Client ClientOutput
send_slot c now none = fault
send_slot c now (some none) = fault
send_slot c now (some (some p)) =
    let (c', os) = transmit c now p in let (c'', os') = move_on c' in running c'' (os ++ os')

module _ (destaddr : ℕ) where
  -- A packet of the file client, as it is stored in `buffer[head]`.
  unfoldable pub stamped : PacketData → Packet
  stamped d = record { msg_header = destaddr; packetdata = d; checksum = checksum_of d }

  -- `FD_ISSET(localsock)`. A write past the window's 20 cells is a fault.
  unfoldable pub on_local : Client → Timeval → PacketData → Outcome Client ClientOutput
  on_local c now d =
      if ltb c.window_pointer 20
      then (let c' = record c {
        window = set c.window c.window_pointer (some d.sequence_num);
        buffer = set c.buffer c.head (some (stamped d));
      } in
          send_slot c' now (get_elem? c'.buffer (find_in_buffer c'.buffer d.sequence_num)))
      else fault

-- A retransmission. An unset `resendpacket` is a fault.
unfoldable pub resend_slot : Client → Timeval → Option (Option Packet) → Outcome Client ClientOutput
resend_slot c now none = fault
resend_slot c now (some none) = fault
resend_slot c now (some (some p)) = let (c', os) = transmit c now p in running c' os

unfoldable pub resend_chosen : Client → Timeval → Option ℕ → Outcome Client ClientOutput
resend_chosen c now none = fault
resend_chosen c now (some j) = resend_slot (record c { resend = some j }) now (get_elem? c.buffer j)

-- `FD_ISSET(sock_tcpd_recv_timer)`.
unfoldable pub on_timer : Client → Timeval → ℕ → Outcome Client ClientOutput
on_timer c now reply_seq_num = resend_chosen c now (choose_resend c reply_seq_num)

-- The part under `ack==1`.
unfoldable pub on_ack : Client → ℕ → Client × List ClientOutput
on_ack c s =
    let window = free_cells c.window s in
    if window_empty window
    then (record c { window = window; window_pointer = 0 }, to_timer s (pos 0) ∷ to_ftpc 0 ∷ [])
    else (record c { window = window }, to_timer s (pos 0) ∷ [])

-- `strcmp(data, "FIN2") == 0`: the bytes up to a NUL are these four.
unfoldable pub is_fin2 : List ℕ → Bool
is_fin2 (a ∷ b ∷ c ∷ d ∷ e ∷ rest) = a == b'F' && b == b'I' && c == b'N' && d == b'2' && e == 0
is_fin2 bytes = false

-- The part under `finack==1`: the next packet of the socket is read, and the daemon exits unless
-- its text is FIN2.
unfoldable pub on_finack : Client → Packet → Outcome Client ClientOutput
on_finack c second =
    if is_fin2 second.packetdata.contents
    then running c []
    else exited (to_ftpc 1 ∷ to_timer second.packetdata.ackseq (pos 0) ∷ [])

-- `FD_ISSET(requestsocket)`. `second` is the packet that the socket delivers next; it is read only
-- after a FINACK.
unfoldable pub on_request : Client → Timeval → Packet → Packet → Outcome Client ClientOutput
on_request c now p second =
    let c₁ = record c { rem_time = timeval_diff now c.start_time } in
    if checksum_of p.packetdata == p.checksum
    then (let (c₂, os) =
          (if p.packetdata.ack == 1 then on_ack c₁ p.packetdata.ackseq else (c₁, [])) in
        if p.packetdata.finack == 1 then sends_first os (on_finack c₂ second) else running c₂ os)
    else running c₁ []

-- What `select` reports: an error, or the socket that is ready with what it delivers.
pub data ClientEvent : Type 0 where
  select_fails : ClientEvent
  from_ftpc : PacketData → ClientEvent
  from_timer : ℕ → ClientEvent
  from_troll : Packet → Packet → ClientEvent

module _ (destaddr : ℕ) where
  -- One round of the loop, and the time at which the socket is served.
  unfoldable pub client_step : Client → Timeval → ClientEvent → Outcome Client ClientOutput
  client_step c now select_fails = exited []
  client_step c now (from_ftpc d) = on_local destaddr c now d
  client_step c now (from_timer s) = on_timer c now s
  client_step c now (from_troll p second) = on_request c now p second

  unfoldable pub client_run : Client → List (Timeval × ClientEvent) → Outcome Client ClientOutput
  client_run c [] = running c []
  client_run c ((now, event) ∷ events) =
      then_on (client_step c now event) (λ c'. client_run c' events)
