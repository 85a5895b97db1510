-- ===== src/Timer/Expiry.antt =====
-- UpdateList: which timers a tick reports, and that all of them are reported in the end.
use reliable_udp.Base.{
  ==_refl, Bool-cases, List, Option, [], ap, arith, false, if◌then◌else◌, inl, inr, leb_ℤ, length,
  map, none, pos, pos_part, refl, some, suc, zero, ℕ, ℤ, ◌++◌, ◌+◌, ◌-ℤ◌, ◌/◌, ◌<ℤ◌, ◌∙◌, ◌∷◌, ◌≡◌,
  ◌≤◌,
}
use reliable_udp.Timer.{
  Peer, PeerList, del_peer_from_list, expire, hand_over, quiet, tick_nodes, timer_step, unlink,
  update_list,
}
use reliable_udp.Timer.Cancel.{IsCounted}
use reliable_udp.Timer.Count.{del_peer_from_list-IsCounted}
use mathlib.Core.Option

-- The leading nodes with no time left, and the nodes from the first one that has some.
pub due_ids : List Peer → List ℕ
due_ids [] = []
due_ids (p ∷ ps) = if leb_ℤ p.time_out (pos 0) then p.id ∷ due_ids ps else []

pub still_running : List Peer → List Peer
still_running [] = []
still_running (p ∷ ps) = if leb_ℤ p.time_out (pos 0) then still_running ps else p ∷ ps

hand_over_expired : (p : Peer) (ps : List Peer) → hand_over false p ps ≡ ps
unfolding hand_over
hand_over_expired p [] = refl
hand_over_expired p (next ∷ rest) = refl

-- Deleting by the head's id takes out the head.
del_head :
    (l : PeerList) (p : Peer) (ps : List Peer)
    → l.peers ≡ p ∷ ps
    → IsCounted l
    → (del_peer_from_list l p.id false).0.peers ≡ ps
unfolding del_peer_from_list unlink
del_head l p ps e h = ground (arith, hand_over_expired p ps, ==_refl p.id, ap length e)

expire_lem :
    (ps : List Peer) (l : PeerList)
    → l.peers ≡ ps
    → IsCounted l
    → ((expire ps l).0 ≡ due_ids ps)
      × ((expire ps l).1.peers ≡ still_running ps)
      × IsCounted (expire ps l).1
unfolding expire due_ids still_running
expire_lem [] l e h = (refl, refl, omega arith)
expire_lem (p ∷ ps) l e h = elim (Bool-cases (leb_ℤ p.time_out (pos 0))) [
  | inl expired ↦ rw expired (
      ground (
        arith,
        expire_lem ps (del_peer_from_list l p.id false).0 (del_head l p ps e h)
            (del_peer_from_list-IsCounted l p.id false h),
      ))
  | inr running ↦ rw running (refl, refl, omega (arith, ap length e))
]

length-tick_nodes : (ps : List Peer) → length (tick_nodes ps) ≡ length ps
unfolding tick_nodes
length-tick_nodes [] = refl
length-tick_nodes (p ∷ ps) = refl

-- A quiet round of the loop takes the tick off the first node, sends the ids of the leading nodes
-- with no time left, in order, and keeps the nodes from the first one that has time left.
pub quiet_lem :
    (l : PeerList)
    → IsCounted l
    → (l' : PeerList) × (timer_step l quiet ≡ some (due_ids (tick_nodes l.peers), l'))
      × (l'.peers ≡ still_running (tick_nodes l.peers))
      × IsCounted l'
unfolding timer_step update_list
quiet_lem l h = (
  (expire (tick_nodes l.peers) (record l { peers = tick_nodes l.peers })).1,
  ground (arith, parts),
  parts.1,
  parts.2,
)
  where
    parts :
        ((expire (tick_nodes l.peers) (record l { peers = tick_nodes l.peers })).0
          ≡ due_ids (tick_nodes l.peers))
        × ((expire (tick_nodes l.peers) (record l { peers = tick_nodes l.peers })).1.peers
            ≡ still_running (tick_nodes l.peers))
        × IsCounted (expire (tick_nodes l.peers) (record l { peers = tick_nodes l.peers })).1
    parts =
        expire_lem (tick_nodes l.peers) (record l { peers = tick_nodes l.peers }) refl
          (omega (arith, length-tick_nodes l.peers))

-- The reported nodes and the kept ones are all nodes, in order.
due_ids-append :
    (ps : List Peer) → due_ids ps ++ map (λ p. p.id) (still_running ps) ≡ map (λ p. p.id) ps
unfolding due_ids still_running
due_ids-append [] = refl
due_ids-append (p ∷ ps) = ground (arith, due_ids-append ps)

map_id-tick_nodes : (ps : List Peer) → map (λ (p : Peer). p.id) (tick_nodes ps) ≡ map (λ p. p.id) ps
unfolding tick_nodes
map_id-tick_nodes [] = refl
map_id-tick_nodes (p ∷ ps) = refl

-- `k` quiet rounds, with all that they send.
pub quiet_rounds : ℕ → PeerList → Option (List ℕ × PeerList)
quiet_rounds zero l = some ([], l)
quiet_rounds (suc k) l = elim (timer_step l quiet) [
  | none ↦ none
  | some (ids, l') ↦ Option.map (λ r. (ids ++ r.0, r.1)) (quiet_rounds k l')
]

-- The rounds in which the timers of a list run out, at most.
abbrev pub rounds_left : List Peer → ℕ
rounds_left [] = 0
rounds_left (p ∷ ps) = pos_part p.time_out / 80000 + 1 + rounds_left ps

rounds_left-still_running : (ps : List Peer) → rounds_left (still_running ps) ≤ rounds_left ps
unfolding still_running
rounds_left-still_running [] = omega arith
rounds_left-still_running (p ∷ ps) = ground (arith, rounds_left-still_running ps)

tick_time_less :
    (t : ℤ) → pos 0 <ℤ t -ℤ pos 80000 → pos_part (t -ℤ pos 80000) / 80000 + 1 ≤ pos_part t / 80000
unfolding ◌-ℤ◌
tick_time_less t h = ground arith

rounds_left-tick :
    (p : Peer) (ps : List Peer)
    → rounds_left (still_running (tick_nodes (p ∷ ps))) + 1 ≤ rounds_left (p ∷ ps)
unfolding still_running tick_nodes
rounds_left-tick p ps = ground (arith, rounds_left-still_running ps, tick_time_less p.time_out)

pub rounds_left-quiet :
    (k : ℕ) (ps : List Peer)
    → rounds_left ps ≤ suc k
    → rounds_left (still_running (tick_nodes ps)) ≤ k
unfolding still_running tick_nodes
rounds_left-quiet k [] h = omega arith
rounds_left-quiet k (p ∷ ps) h = omega (arith, rounds_left-tick p ps)

pub ids-quiet :
    (ps : List Peer)
    → due_ids (tick_nodes ps) ++ map (λ p. p.id) (still_running (tick_nodes ps))
      ≡ map (λ p. p.id) ps
ids-quiet ps = due_ids-append (tick_nodes ps) ∙ map_id-tick_nodes ps

pub rounds_left-zero : (ps : List Peer) → rounds_left ps ≤ 0 → ps ≡ []
rounds_left-zero [] h = refl
rounds_left-zero (p ∷ ps) h = absurd (omega arith)

-- If the daemon stays quiet, every running timer is reported, in the order of the list: within
-- as many rounds as `rounds_left` counts the loop has sent exactly the ids of the list, and the
-- list is empty.
pub quiet_rounds_fire :
    (k : ℕ) (l : PeerList)
    → IsCounted l
    → rounds_left l.peers ≤ k
    → (l' : PeerList) × (quiet_rounds k l ≡ some (map (λ p. p.id) l.peers, l')) × (l'.peers ≡ [])
unfolding quiet_rounds
quiet_rounds_fire zero l h m = let e : l.peers ≡ [] = rounds_left-zero l.peers m in (l, rw e, e)
quiet_rounds_fire (suc k) l h m =
    let (l₁, step, left, counted) = quiet_lem l h in
    let (l₂, rest, done) =
      quiet_rounds_fire k l₁ counted (rw left (rounds_left-quiet k l.peers m)) in
    (l₂, ground (arith, step, rest, left, ids-quiet l.peers), done)
