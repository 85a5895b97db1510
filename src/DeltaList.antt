-- ===== src/DeltaList.antt =====
-- The earlier delta list, timer_def.h: times are unsigned ints in milliseconds, which wrap around at
-- 2 ^ 32. As in Timer the linked list is the list of its nodes from `head` on, and `none` is the use
-- of `prev1` before it is set.
use reliable_udp.Base.{
  Bool, List, Option, [], false, if◌then◌else◌, leb, ltb, map, none, some, true, ℕ, ◌%◌, ◌+◌, ◌-◌,
  ◌==◌, ◌∷◌,
}
use mathlib.Core.Option
pub mod Exact
pub mod Erase
pub mod Tick
mod Tests

-- Unsigned arithmetic on numbers below 2 ^ 32; `total_to` is an int that is only compared with
-- unsigned numbers, and stands for the unsigned one that it is converted to.
unfoldable pub add_word : ℕ → ℕ → ℕ
add_word a b = (a + b) % 4294967296

unfoldable pub sub_word : ℕ → ℕ → ℕ
sub_word a b = (a + (4294967296 - b)) % 4294967296

pub record Peer : Type 0 where
  pub id : ℕ
  pub port : ℕ
  pub time_out : ℕ

pub record PeerList : Type 0 where
  pub num_peers : ℕ
  pub peers : List Peer

-- The Boolean says whether `malloc` found memory.
unfoldable pub new_peer : Bool → ℕ → ℕ → ℕ → Option Peer
new_peer memory id port timeout =
    if memory then some (record { id = id; port = port; time_out = timeout }) else none

unfoldable pub new_peer_list : Bool → Option PeerList
new_peer_list memory = if memory then some (record { num_peers = 0; peers = [] }) else none

-- The node with its time changed.
abbrev pub with_time_out : Peer → ℕ → Peer
with_time_out p t = record p { time_out = t }

-- `fp` linked in front of `temp`; `total` includes `temp`'s own time, which is added back.
unfoldable pub link_before : ℕ → Peer → List Peer → Peer → List Peer
link_before total temp rest fp =
    let delta = add_word (sub_word fp.time_out total) temp.time_out in
    with_time_out fp delta ∷ with_time_out temp (sub_word temp.time_out delta) ∷ rest

-- The walk of addPeerToList from the node `temp` on, with the nodes after it; `prev_set` tells
-- whether `prev1` has been set. The result is the list from `temp`'s place on.
unfoldable pub walk : Bool → ℕ → Peer → List Peer → Peer → Option (List Peer)
walk prev_set total temp [] fp =
    if ltb fp.time_out total
    then (if prev_set then some (link_before total temp [] fp) else none)
    else some (temp ∷ with_time_out fp (sub_word fp.time_out total) ∷ [])
walk prev_set total temp (next ∷ rest) fp =
    let further = walk true (add_word total next.time_out) next rest fp in
    if ltb total fp.time_out
    then Option.map (◌∷◌ temp) further
    else (if prev_set then some (link_before total temp (next ∷ rest) fp) else none)

unfoldable pub insert_peer : List Peer → Peer → Option (List Peer)
insert_peer [] fp = some (fp ∷ [])
insert_peer (h ∷ rest) fp =
    if leb fp.time_out h.time_out
    then some (fp ∷ with_time_out h (sub_word h.time_out fp.time_out) ∷ rest)
    else walk false h.time_out h rest fp

unfoldable pub add_peer_to_list : PeerList → Peer → Option PeerList
add_peer_to_list l fp =
    Option.map (λ ps. record { num_peers = l.num_peers + 1; peers = ps }) (insert_peer l.peers fp)

unfoldable pub peer_exists : List Peer → ℕ → Bool
peer_exists [] id = false
peer_exists (p ∷ rest) id = if p.id == id then true else peer_exists rest id

-- The nodes after the deleted one: an acknowledged node leaves its time to its successor.
unfoldable pub hand_over : Bool → Peer → List Peer → List Peer
hand_over ack p [] = []
hand_over ack p (next ∷ rest) =
    if ack then with_time_out next (add_word next.time_out p.time_out) ∷ rest else next ∷ rest

-- The first node with this id taken out; `none` if there is none.
unfoldable pub unlink : ℕ → Bool → List Peer → Option (List Peer)
unlink id ack [] = none
unlink id ack (p ∷ rest) =
    if p.id == id then some (hand_over ack p rest) else Option.map (◌∷◌ p) (unlink id ack rest)

-- The early `break` for the only node leaves `numPeers` as it is.
unfoldable pub count_after : ℕ → List Peer → ℕ
count_after n [] = n
count_after n (p ∷ rest) = n - 1

unfoldable pub del_peer_from_list : PeerList → ℕ → Bool → PeerList × Bool
del_peer_from_list l id ack =
    if l.num_peers == 0 then (l, false) else elim (unlink id ack l.peers) [
      | none ↦ (l, false)
      | some rest ↦ (record { num_peers = count_after l.num_peers rest; peers = rest }, true)
    ]

-- The loop of UpdateList from the node `forwardPeer` on: the ids sent to the daemon, and the list. An
-- unsigned time is `<= 0` where it is zero, so that adding it to the next node's changes nothing.
unfoldable pub expire : List Peer → PeerList → List ℕ × PeerList
expire [] l = ([], record l { peers = [] })
expire (p ∷ rest) l =
    let later = expire rest (del_peer_from_list l p.id false).0 in
    if p.time_out == 0 then (p.id ∷ later.0, later.1) else ([], record l { peers = p ∷ rest })

-- 100 off the first node.
unfoldable pub tick_nodes : List Peer → List Peer
tick_nodes [] = []
tick_nodes (h ∷ rest) = with_time_out h (sub_word h.time_out 100) ∷ rest

unfoldable pub update_list : PeerList → List ℕ × PeerList
update_list l = expire (tick_nodes l.peers) (record l { peers = tick_nodes l.peers })
