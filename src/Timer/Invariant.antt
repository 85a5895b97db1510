-- ===== src/Timer/Invariant.antt =====
-- What every round of the loop of timer.c keeps.
use reliable_udp.Base.{
  Bool, List, Option-cases, [], ap, arith, false, inl, inr, length, length-append, pos, refl, some,
  suc, true, ℕ, ℤ, ◌+ℤ◌, ◌+◌, ◌<ℤ◌, ◌∷◌, ◌≡◌,
}
use reliable_udp.Timer.{
  Peer, PeerList, TimerEvent, add_peer_to_list, insert_peer, is_zero, message, new_peer, no_data,
  null_node, quiet, select_error, take_node, timer_step,
}
use reliable_udp.Timer.Cancel.{IsCounted}
use reliable_udp.Timer.Count.{del_peer_from_list-IsCounted}
use reliable_udp.Timer.Deadlines.{Placed, deadlines}
use reliable_udp.Timer.Expiry.{quiet_lem}
use reliable_udp.Timer.Insert.{insert_peer-Placed, insert_peer-ne-none}

length-deadlines : (t : ℤ) (l : List Peer) → length (deadlines t l) ≡ length l
length-deadlines t [] = refl
length-deadlines t (p ∷ ps) = ap suc (length-deadlines (t +ℤ p.time_out) ps)

length-insert_peer :
    (l : List Peer) (fp : Peer) (new : List Peer)
    → insert_peer l fp ≡ some new
    → length new ≡ length l + 1
length-insert_peer l fp new e =
    let p = insert_peer-Placed l fp e in
    omega (
      arith,
      length-deadlines (pos 0) l,
      length-deadlines (pos 0) new,
      ap length p.was,
      ap length p.now,
      length-append p.before p.after,
      length-append p.before ((fp.id, p.due) ∷ p.after),
    )

add_peer_to_list-IsCounted :
    (l : PeerList) (fp : Peer) (l' : PeerList)
    → IsCounted l
    → add_peer_to_list l fp ≡ some l'
    → IsCounted l'
unfolding add_peer_to_list
add_peer_to_list-IsCounted l fp l' h e = elim (Option-cases (insert_peer l.peers fp)) [
  | inl refused ↦ absurd (ground arith)
  | inr (new, ok) ↦ ground (arith, length-insert_peer l.peers fp new ok)
]

null_node-IsCounted :
    (l : PeerList) (seq_no : ℕ) (cancel : Bool) (ids : List ℕ) (l' : PeerList)
    → IsCounted l
    → null_node l seq_no cancel ≡ some (ids, l')
    → IsCounted l'
unfolding null_node
null_node-IsCounted l seq_no cancel ids l' h e = ground arith

take_node-IsCounted :
    (l : PeerList) (node : Peer) (cancel : Bool) (ids : List ℕ) (l' : PeerList)
    → IsCounted l
    → take_node l node cancel ≡ some (ids, l')
    → IsCounted l'
unfolding take_node
take_node-IsCounted l node true ids l' h e =
    ground (arith, del_peer_from_list-IsCounted l node.id true h)
take_node-IsCounted l node false ids l' h e = elim (Option-cases (add_peer_to_list l node)) [
  | inl refused ↦ absurd (ground arith)
  | inr (new, ok) ↦ ground (arith, add_peer_to_list-IsCounted l node new h ok)
]

-- Whatever happens in a round, `numPeers` stays at least the number of nodes.
pub timer_step-IsCounted :
    (l : PeerList) (event : TimerEvent) (ids : List ℕ) (l' : PeerList)
    → IsCounted l
    → timer_step l event ≡ some (ids, l')
    → IsCounted l'
unfolding timer_step new_peer
timer_step-IsCounted l quiet ids l' h e =
    let (l₁, step, left, counted) = quiet_lem l h in ground (arith, step, counted)
timer_step-IsCounted l select_error ids l' h e = ground arith
timer_step-IsCounted l no_data ids l' h e = ground arith
timer_step-IsCounted l (message true seq_no port timeout) ids l' h e =
    take_node-IsCounted l (record { id = seq_no; port = port; time_out = timeout })
      (is_zero timeout) ids l' h e
timer_step-IsCounted l (message false seq_no port timeout) ids l' h e =
    null_node-IsCounted l seq_no (is_zero timeout) ids l' h e

-- A timer with a positive time, for which memory is found, is started: the round is no fault, sends
-- nothing, counts one node more, and keeps all deadlines beside the new one.
pub start-Placed :
    (l : PeerList) (seq_no port : ℕ) (timeout : ℤ)
    → pos 0 <ℤ timeout
    → (l' : PeerList) × (timer_step l (message true seq_no port timeout) ≡ some ([], l'))
      × (l'.num_peers ≡ l.num_peers + 1)
      × Placed
          (record { id = seq_no; port = port; time_out = timeout })
          (deadlines (pos 0) l.peers)
          (deadlines (pos 0) l'.peers)
unfolding timer_step new_peer take_node add_peer_to_list is_zero
start-Placed l seq_no port timeout h =
    elim (Option-cases
      (insert_peer l.peers (record { id = seq_no; port = port; time_out = timeout }))) [
        | inl refused ↦ absurd (
            insert_peer-ne-none l.peers (record { id = seq_no; port = port; time_out = timeout }) h
              refused)
        | inr (new, ok) ↦ (
          record { num_peers = l.num_peers + 1; peers = new },
          ground (arith, ok),
          refl,
          insert_peer-Placed l.peers (record { id = seq_no; port = port; time_out = timeout }) ok,
        )
      ]
