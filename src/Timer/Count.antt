-- ===== src/Timer/Count.antt =====
-- The counter `numPeers` never falls below the number of nodes, so that the guard of
-- delPeerFromList never hides a node.
use reliable_udp.Base.{
  Bool, Bool-cases, List, Option-cases, [], ap, arith, false, inl, inr, length, map-cons_inv, refl,
  some, some_inj, suc, sym, true, ℕ, ◌+◌, ◌==◌, ◌∙◌, ◌∷◌, ◌≡◌, ◌≤◌,
}
use reliable_udp.Timer.{Peer, PeerList, count_after, del_peer_from_list, hand_over, unlink}
use reliable_udp.Timer.Cancel.{IsCounted}

length-hand_over :
    (ack : Bool) (p : Peer) (rest : List Peer) → length (hand_over ack p rest) ≡ length rest
unfolding hand_over
length-hand_over ack p [] = refl
length-hand_over true p (next ∷ rest) = refl
length-hand_over false p (next ∷ rest) = refl

count_after-le : (n : ℕ) (rest : List Peer) → length rest + 1 ≤ n → length rest ≤ count_after n rest
unfolding count_after
count_after-le n [] h = omega arith
count_after-le n (p ∷ ps) h = omega arith

length-unlink :
    (id : ℕ) (ack : Bool) (l rest : List Peer)
    → unlink id ack l ≡ some rest
    → length l ≡ suc (length rest)
unfolding unlink
length-unlink id ack [] rest e = absurd (ground arith)
length-unlink id ack (p ∷ ps) rest e = elim (Bool-cases (p.id == id)) [
  | inl same ↦ ap suc (sym (length-hand_over ack p ps) ∙ ap length (some_inj (rw same at e)))
  | inr other ↦
      let (r, found, is) = map-cons_inv p (unlink id ack ps) rest (rw other at e) in
      omega (arith, length-unlink id ack ps r found, ap length is)
]

pub del_peer_from_list-IsCounted :
    (l : PeerList) (id : ℕ) (ack : Bool) → IsCounted l → IsCounted (del_peer_from_list l id ack).0
unfolding del_peer_from_list
del_peer_from_list-IsCounted l id ack h = elim (Option-cases (unlink id ack l.peers)) [
  | inl absent ↦ ground arith
  | inr (rest, found) ↦
      ground (arith, length-unlink id ack l.peers rest found, count_after-le l.num_peers rest)
]
