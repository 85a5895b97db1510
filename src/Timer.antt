-- ===== src/Timer.antt =====
-- The delta timer: timer_lib.c (the list of running timers) and the loop of timer.c.
-- A `double` time is a whole number of eighths of a microsecond: every value that the program
-- computes is one, and doubles hold these exactly up to 2 ^ 50. The doubly linked list is the list
-- of its nodes from `head` on; `none` is undefined behaviour, the use of `prev1` before it is set
-- or of a node that could not be allocated.
use reliable_udp.Base.{
  Bool, List, Option, [], false, if◌then◌else◌, int_of, leb_ℤ, ltb_ℤ, map, none, not, pos, some,
  times_ℤ, true, ℕ, ℤ, ◌&&◌, ◌+ℤ◌, ◌+◌, ◌-ℤ◌, ◌-◌, ◌==◌, ◌∷◌,
}
use mathlib.Core.Option
pub mod Deadlines
pub mod Walk
pub mod Insert
pub mod Cancel
pub mod Count
pub mod Expiry
pub mod Invariant
mod Tests

-- The nodes carry their port, which no operation reads.
pub record Peer : Type 0 where
  pub id : ℕ
  pub port : ℕ
  pub time_out : ℤ

pub record PeerList : Type 0 where
  pub num_peers : ℕ
  pub peers : List Peer

-- The Boolean says whether `malloc` found memory.
unfoldable pub new_peer : Bool → ℕ → ℕ → ℤ → Option Peer
new_peer memory id port timeout =
    if memory then some (record { id = id; port = port; time_out = timeout }) else none

unfoldable pub new_peer_list : Bool → Option PeerList
new_peer_list memory = if memory then some (record { num_peers = 0; peers = [] }) else none

-- The node with its time changed.
abbrev pub with_time_out : Peer → ℤ → Peer
with_time_out p t = record p { time_out = t }

-- `total_to` is an int: what a double leaves when it is stored there, in eighths again.
unfoldable pub to_int : ℤ → ℤ
to_int t = times_ℤ (int_of t) 8

-- `fp` linked in front of `temp`; `total` includes `temp`'s own time.
unfoldable pub link_before : ℤ → Peer → List Peer → Peer → List Peer
link_before total temp rest fp =
    let delta = fp.time_out -ℤ total in
    with_time_out fp delta ∷ with_time_out temp (temp.time_out -ℤ delta) ∷ rest

-- The walk of addPeerToList from the node `temp` on, with the nodes after it; `prev_set` tells
-- whether `prev1` has been set. The result is the list from `temp`'s place on.
unfoldable pub walk : Bool → ℤ → Peer → List Peer → Peer → Option (List Peer)
walk prev_set total temp [] fp =
    if ltb_ℤ fp.time_out total
    then (if prev_set then some (link_before total temp [] fp) else none)
    else some (temp ∷ with_time_out fp (fp.time_out -ℤ total) ∷ [])
walk prev_set total temp (next ∷ rest) fp =
    let further = walk true (to_int (total +ℤ next.time_out)) next rest fp in
    if ltb_ℤ total fp.time_out
    then Option.map (◌∷◌ temp) further
    else (if prev_set then some (link_before total temp (next ∷ rest) fp) else none)

unfoldable pub insert_peer : List Peer → Peer → Option (List Peer)
insert_peer [] fp = some (fp ∷ [])
insert_peer (h ∷ rest) fp =
    if leb_ℤ fp.time_out h.time_out
    then some (fp ∷ with_time_out h (h.time_out -ℤ fp.time_out) ∷ rest)
    else walk false (to_int h.time_out) h rest fp

unfoldable pub add_peer_to_list : PeerList → Peer → Option PeerList
add_peer_to_list l fp =
    Option.map (λ ps. record { num_peers = l.num_peers + 1; peers = ps }) (insert_peer l.peers fp)

unfoldable pub peer_exists : List Peer → ℕ → Bool
peer_exists [] id = false
peer_exists (p ∷ rest) id = if p.id == id then true else peer_exists rest id

-- The nodes after the deleted one: an acknowledged node leaves its time to its successor.
unfoldable pub hand_over : Bool → Peer → List Peer → List Peer
hand_over ack p [] = []
hand_over ack p (next ∷ rest) =
    if ack then with_time_out next (next.time_out +ℤ p.time_out) ∷ rest else next ∷ rest

-- The first node with this id taken out; `none` if there is none.
unfoldable pub unlink : ℕ → Bool → List Peer → Option (List Peer)
unlink id ack [] = none
unlink id ack (p ∷ rest) =
    if p.id == id then some (hand_over ack p rest) else Option.map (◌∷◌ p) (unlink id ack rest)

-- The early `break` for the only node leaves `numPeers` as it is.
unfoldable pub count_after : ℕ → List Peer → ℕ
count_after n [] = n
count_after n (p ∷ rest) = n - 1

unfoldable pub del_peer_from_list : PeerList → ℕ → Bool → PeerList × Bool
del_peer_from_list l id ack =
    if l.num_peers == 0 then (l, false) else elim (unlink id ack l.peers) [
      | none ↦ (l, false)
      | some rest ↦ (record { num_peers = count_after l.num_peers rest; peers = rest }, true)
    ]

-- The loop of UpdateList from the node `forwardPeer` on: the ids sent to the daemon, and the list.
unfoldable pub expire : List Peer → PeerList → List ℕ × PeerList
expire [] l = ([], record l { peers = [] })
expire (p ∷ rest) l =
    let later = expire rest (del_peer_from_list l p.id false).0 in
    if leb_ℤ p.time_out (pos 0)
    then (p.id ∷ later.0, later.1)
    else ([], record l { peers = p ∷ rest })

-- 10000 microseconds.
abbrev pub tick_time : ℤ
tick_time = pos 80000

unfoldable pub tick_nodes : List Peer → List Peer
tick_nodes [] = []
tick_nodes (h ∷ rest) = with_time_out h (h.time_out -ℤ tick_time) ∷ rest

unfoldable pub update_list : PeerList → List ℕ × PeerList
update_list l = expire (tick_nodes l.peers) (record l { peers = tick_nodes l.peers })

-- What `select` reports: nothing for 100 ms, an error, a failed read, or a message of the daemon
-- (with the outcome of the allocation that it leads to).
pub data TimerEvent : Type 0 where
  quiet : TimerEvent
  select_error : TimerEvent
  no_data : TimerEvent
  message : Bool → ℕ → ℕ → ℤ → TimerEvent

unfoldable pub is_zero : ℤ → Bool
is_zero t = leb_ℤ t (pos 0) && leb_ℤ (pos 0) t

-- A message whose node could not be allocated: `node` is NULL. An empty list takes it in as no
-- node, though it is counted; everything else that looks at the node is a fault.
unfoldable pub null_node : PeerList → ℕ → Bool → Option (List ℕ × PeerList)
null_node l seq_no cancel =
    if cancel
    then (if peer_exists l.peers seq_no && not (l.num_peers == 0) then none else some ([], l))
    else elim l.peers [
      | [] ↦ some ([], record { num_peers = l.num_peers + 1; peers = [] })
      | _ ↦ none
    ]

-- A message with its node: a time of zero cancels, any other starts a timer.
unfoldable pub take_node : PeerList → Peer → Bool → Option (List ℕ × PeerList)
take_node l node cancel =
    if cancel
    then (if peer_exists l.peers node.id
        then some ([], (del_peer_from_list l node.id true).0)
        else some ([], l))
    else Option.map (λ l'. ([], l')) (add_peer_to_list l node)

-- One round of the loop of `main`: the ids sent to the daemon, and the list.
unfoldable pub timer_step : PeerList → TimerEvent → Option (List ℕ × PeerList)
timer_step l quiet = some (update_list l)
timer_step l select_error = some ([], l)
timer_step l no_data = some ([], l)
timer_step l (message memory seq_no port timeout) = elim (new_peer memory seq_no port timeout) [
  | none ↦ null_node l seq_no (is_zero timeout)
  | some node ↦ take_node l node (is_zero timeout)
]
