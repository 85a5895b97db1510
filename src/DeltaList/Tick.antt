-- ===== src/DeltaList/Tick.antt =====
-- UpdateList of timer_def.h.
use reliable_udp.Base.{
  ==_refl, Bool, List, [], ap, arith, false, if◌then◌else◌, leb, length, refl, subst, true, ℕ,
  ℕ_discrete, ◌+◌, ◌-◌, ◌<◌, ◌∷◌, ◌≡◌, ◌≤◌,
}
use reliable_udp.DeltaList.{
  Peer, PeerList, count_after, del_peer_from_list, expire, hand_over, sub_word, tick_nodes, unlink,
  update_list, with_time_out,
}
use reliable_udp.DeltaList.Erase.{IsCounted}
use reliable_udp.DeltaList.Exact.{Deadline, deadlines, span, sub_word-le}

-- The timers that run out within 100, and the others with 100 less to go.
abbrev pub due : List Deadline → List ℕ
due [] = []
due (d ∷ ds) = if leb d.1 100 then d.0 ∷ due ds else []

abbrev pub not_due : List Deadline → List Deadline
not_due [] = []
not_due (d ∷ ds) = if leb d.1 100 then not_due ds else (d.0, d.1 - 100) ∷ not_due ds

length-hand_over :
    (ack : Bool) (p : Peer) (rest : List Peer) → length (hand_over ack p rest) ≡ length rest
unfolding hand_over
length-hand_over ack p [] = refl
length-hand_over true p (next ∷ rest) = refl
length-hand_over false p (next ∷ rest) = refl

hand_over_expired : (p : Peer) (ps : List Peer) → hand_over false p ps ≡ ps
unfolding hand_over
hand_over_expired p [] = refl
hand_over_expired p (next ∷ rest) = refl

-- Deleting by the head's id takes out the head.
del_head :
    (l : PeerList) (p : Peer) (ps : List Peer)
    → l.peers ≡ p ∷ ps
    → IsCounted l
    → ((del_peer_from_list l p.id false).0.peers ≡ ps)
      × IsCounted (del_peer_from_list l p.id false).0
unfolding del_peer_from_list unlink count_after
del_head l p ps e h = ground (arith, hand_over_expired p ps, ==_refl p.id, ap length e)

deadlines-later :
    (t : ℕ) (l : List Peer) → 100 < t → not_due (deadlines t l) ≡ deadlines (t - 100) l
deadlines-later t [] h = refl
deadlines-later t (p ∷ ps) h = ground (arith, deadlines-later (t + p.time_out) ps (omega arith))

-- The loop from a node on, when all before it ran out exactly now.
expire-deadlines :
    (ps : List Peer) (l : PeerList)
    → l.peers ≡ ps
    → IsCounted l
    → ((expire ps l).0 ≡ due (deadlines 100 ps))
      × (deadlines 0 (expire ps l).1.peers ≡ not_due (deadlines 100 ps))
      × IsCounted (expire ps l).1
unfolding expire
expire-deadlines [] l e h = (refl, refl, omega arith)
expire-deadlines (p ∷ ps) l e h = elim (ℕ_discrete p.time_out 0) [
  | yes z ↦
      let (same, counted) = del_head l p ps e h in
      ground (arith, z, expire-deadlines ps (del_peer_from_list l p.id false).0 same counted)
  | no more ↦ ground (arith, ap length e, deadlines-later (100 + p.time_out) ps (omega arith))
]

-- Where the first timer has at least 100 to go and no sum of times reaches 2 ^ 32, `UpdateList` of
-- timer_def.h reports the timers that run out within 100 and keeps the others, each with a deadline
-- 100 earlier.
pub update_list-deadlines :
    (l : PeerList) (h : Peer) (rest : List Peer)
    → l.peers ≡ h ∷ rest
    → 100 ≤ h.time_out
    → span l.peers < 4294967296
    → IsCounted l
    → ((update_list l).0 ≡ due (deadlines 0 l.peers))
      × (deadlines 0 (update_list l).1.peers ≡ not_due (deadlines 0 l.peers))
      × IsCounted (update_list l).1
unfolding update_list tick_nodes
update_list-deadlines l h rest e le fits counted = rw e (
    subst
      (λ ds.
        ((expire ticked (record l { peers = ticked })).0 ≡ due ds)
        × (deadlines 0 (expire ticked (record l { peers = ticked })).1.peers ≡ not_due ds)
        × IsCounted (expire ticked (record l { peers = ticked })).1)
      same
      (expire-deadlines ticked (record l { peers = ticked }) refl (omega (arith, ap length e))))
  where
    ticked : List Peer
    ticked = with_time_out h (sub_word h.time_out 100) ∷ rest

    same : deadlines 100 ticked ≡ deadlines 0 (h ∷ rest)
    same =
        ap (λ t. (h.id, t) ∷ deadlines t rest)
          (omega (arith, sub_word-le h.time_out 100 le (omega (arith, ap span e))))

-- A first timer with less than 100 to go is never reported by `UpdateList` of timer_def.h: its
-- unsigned time wraps around to almost 2 ^ 32, and behind it nothing is reported either.
pub update_list_wraps :
    (l : PeerList) (h : Peer) (rest : List Peer)
    → l.peers ≡ h ∷ rest
    → h.time_out < 100
    → update_list l ≡ ([], record l { peers = with_time_out h (h.time_out + 4294967196) ∷ rest })
unfolding update_list expire tick_nodes sub_word
update_list_wraps l h rest e lt = ground (arith, e)
