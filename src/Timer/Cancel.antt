-- ===== src/Timer/Cancel.antt =====
-- delPeerFromList, and cancelling a timer in the loop of timer.c.
use reliable_udp.Base.{
  Bool, Bool-cases, List, Option, Option-cases, [], ap, arith, false, if◌then◌else◌, inl, inr,
  int_laws, length, none, pos, refl, some, some_inj, subst, sym, true, ℕ, ℤ, ◌+ℤ◌, ◌<◌, ◌==◌, ◌∷◌,
  ◌≡◌, ◌≢◌, ◌≤◌,
}
use reliable_udp.Timer.{
  Peer, PeerList, count_after, del_peer_from_list, hand_over, is_zero, message, new_peer,
  peer_exists, take_node, timer_step, unlink,
}
use reliable_udp.Timer.Deadlines.{Deadline, deadlines}
use mathlib.Core.Option

-- The first deadline of this id taken out.
abbrev pub erase_id : ℕ → List Deadline → List Deadline
erase_id id [] = []
erase_id id (d ∷ ds) = if d.0 == id then ds else d ∷ erase_id id ds

-- `numPeers` counts no node too few. It may count more: the code forgets to count down where the
-- only node is deleted.
abbrev pub IsCounted : PeerList → Type 0
IsCounted l = length l.peers ≤ l.num_peers

hand_over-deadlines :
    (t : ℤ) (p : Peer) (rest : List Peer)
    → deadlines t (hand_over true p rest) ≡ deadlines (t +ℤ p.time_out) rest
unfolding hand_over
hand_over-deadlines t p [] = refl
hand_over-deadlines t p (next ∷ rest) = ap (λ e. (next.id, e) ∷ deadlines e rest) (omega int_laws)

unlink_later :
    (t : ℤ) (id : ℕ) (p : Peer) (ps rest : List Peer)
    → ((r : List Peer)
        → unlink id true ps ≡ some r
        → deadlines (t +ℤ p.time_out) r ≡ erase_id id (deadlines (t +ℤ p.time_out) ps))
    → (o : Option (List Peer)) → unlink id true ps ≡ o
    → Option.map (◌∷◌ p) o ≡ some rest
    → deadlines t rest ≡ (p.id, t +ℤ p.time_out) ∷ erase_id id (deadlines (t +ℤ p.time_out) ps)
unlink_later t id p ps rest ih none q m = absurd (ground arith)
unlink_later t id p ps rest ih (some r) q m =
    subst
      (λ x. deadlines t x ≡ (p.id, t +ℤ p.time_out) ∷ erase_id id (deadlines (t +ℤ p.time_out) ps))
      (some_inj m) (ap (◌∷◌ (p.id, t +ℤ p.time_out)) (ih r q))

-- Deleting an acknowledged node takes out its deadline and leaves all others as they were.
unlink-deadlines :
    (t : ℤ) (id : ℕ) (l rest : List Peer)
    → unlink id true l ≡ some rest
    → deadlines t rest ≡ erase_id id (deadlines t l)
unfolding unlink
unlink-deadlines t id [] rest e = absurd (ground arith)
unlink-deadlines t id (p ∷ ps) rest e = elim (Bool-cases (p.id == id)) [
  | inl same ↦ rw same (
      subst (λ r. deadlines t r ≡ deadlines (t +ℤ p.time_out) ps) (some_inj (rw same at e))
        (hand_over-deadlines t p ps))
  | inr other ↦ rw other (
      unlink_later t id p ps rest (unlink-deadlines (t +ℤ p.time_out) id ps) (unlink id true ps)
        refl (rw other at e))
]

erase_id-absent :
    (t : ℤ) (id : ℕ) (l : List Peer)
    → peer_exists l id ≡ false
    → erase_id id (deadlines t l) ≡ deadlines t l
unfolding peer_exists
erase_id-absent t id [] h = refl
erase_id-absent t id (p ∷ ps) h = elim (Bool-cases (p.id == id)) [
  | inl same ↦ absurd (ground arith)
  | inr other ↦
      rw other
        (ap (◌∷◌ (p.id, t +ℤ p.time_out)) (erase_id-absent (t +ℤ p.time_out) id ps (rw other at h)))
]

unlink-present :
    (id : ℕ) (ack : Bool) (l : List Peer) → peer_exists l id ≡ true → unlink id ack l ≢ none
unfolding peer_exists unlink
unlink-present id ack [] h = absurd (ground arith)
unlink-present id ack (p ∷ ps) h = ground (arith, unlink-present id ack ps)

peer_exists-pos : (l : List Peer) (id : ℕ) → peer_exists l id ≡ true → 0 < length l
unfolding peer_exists
peer_exists-pos [] id h = absurd (ground arith)
peer_exists-pos (p ∷ ps) id h = omega arith

-- A message with time zero takes the first deadline of its sequence number out of the list, if
-- there is one, leaves every other deadline as it was, and sends nothing.
pub cancel-deadlines :
    (l : PeerList) (seq_no port : ℕ)
    → IsCounted l
    → (l' : PeerList) × (timer_step l (message true seq_no port (pos 0)) ≡ some ([], l'))
      × (deadlines (pos 0) l'.peers ≡ erase_id seq_no (deadlines (pos 0) l.peers))
unfolding timer_step new_peer take_node is_zero del_peer_from_list
cancel-deadlines l seq_no port h = elim (Bool-cases (peer_exists l.peers seq_no)) [
  | inr absent ↦ (l, ground arith, sym (erase_id-absent (pos 0) seq_no l.peers absent))
  | inl present ↦ elim (Option-cases (unlink seq_no true l.peers)) [
    | inl lost ↦ absurd (unlink-present seq_no true l.peers present lost)
    | inr (rest, found) ↦ (
      record { num_peers = count_after l.num_peers rest; peers = rest },
      ground (arith, peer_exists-pos l.peers seq_no),
      unlink-deadlines (pos 0) seq_no l.peers rest found,
    )
  ]
]
