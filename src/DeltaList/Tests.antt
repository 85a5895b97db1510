-- ===== src/DeltaList/Tests.antt =====
-- Timers on a list of two.
use reliable_udp.Base.{List, [], arith, refl, some, true, ◌+◌, ◌∷◌, ◌≡◌}
use reliable_udp.DeltaList.{
  Peer, PeerList, del_peer_from_list, insert_peer, update_list, with_time_out,
}
use reliable_udp.DeltaList.Erase.{IsCounted, del_peer_from_list-deadlines, erase_id}
use reliable_udp.DeltaList.Exact.{IsInserted, deadlines, insert_peer-IsInserted}
use reliable_udp.DeltaList.Tick.{due, not_due, update_list-deadlines, update_list_wraps}

abbrev first : Peer
first = record { id = 1; port = 0; time_out = 100 }

abbrev second : Peer
second = record { id = 2; port = 0; time_out = 200 }

abbrev fresh : Peer
fresh = record { id = 3; port = 0; time_out = 250 }

abbrev short : Peer
short = record { id = 4; port = 0; time_out = 30 }

abbrev timers : PeerList
timers = record { num_peers = 2; peers = first ∷ second ∷ [] }

timers-IsCounted : IsCounted timers
timers-IsCounted = omega arith

insert_peer-IsInserted_example :
    (new : List Peer) × (insert_peer timers.peers fresh ≡ some new)
    × IsInserted fresh (deadlines 0 timers.peers) (deadlines 0 new)
insert_peer-IsInserted_example =
    insert_peer-IsInserted timers.peers fresh (omega arith) (omega arith)

del_peer_from_list-deadlines_example :
    deadlines 0 (del_peer_from_list timers 1 true).0.peers ≡ erase_id 1 (deadlines 0 timers.peers)
del_peer_from_list-deadlines_example =
    del_peer_from_list-deadlines timers 1 (omega arith) timers-IsCounted

update_list-deadlines_example :
    ((update_list timers).0 ≡ due (deadlines 0 timers.peers))
    × (deadlines 0 (update_list timers).1.peers ≡ not_due (deadlines 0 timers.peers))
    × IsCounted (update_list timers).1
update_list-deadlines_example =
    update_list-deadlines timers first (second ∷ []) refl (omega arith) (omega arith)
      timers-IsCounted

update_list_wraps_example :
    update_list (record { num_peers = 2; peers = short ∷ first ∷ [] })
    ≡ ([], record { num_peers = 2; peers = with_time_out short (30 + 4294967196) ∷ first ∷ [] })
update_list_wraps_example =
    update_list_wraps (record { num_peers = 2; peers = short ∷ first ∷ [] }) short (first ∷ []) refl
      (omega arith)
