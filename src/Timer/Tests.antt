-- ===== src/Timer/Tests.antt =====
-- Timers on a list of three.
use reliable_udp.Base.{
  int_of, List, [], arith, negsuc, pos, quot_ℤ, refl, some, times_ℤ, true, ◌+ℤ◌, ◌-ℤ◌, ◌∷◌, ◌≡◌,
}
use reliable_udp.Timer.{
  Peer, PeerList, insert_peer, link_before, message, timer_step, to_int, walk, with_time_out,
}
use reliable_udp.Timer.Cancel.{IsCounted, cancel-deadlines, erase_id}
use reliable_udp.Timer.Deadlines.{IsTimely, IsWhole, Placed, deadlines}
use reliable_udp.Timer.Expiry.{quiet_rounds, quiet_rounds_fire}
use reliable_udp.Timer.Insert.{insert_peer-IsTimely, insert_peer-Placed, insert_peer_early}
use reliable_udp.Timer.Invariant.{start-Placed}

abbrev first : Peer
first = record { id = 1; port = 0; time_out = pos 80000 }

abbrev second : Peer
second = record { id = 2; port = 0; time_out = pos 160000 }

abbrev third : Peer
third = record { id = 3; port = 0; time_out = pos 240000 }

abbrev timers : PeerList
timers = record { num_peers = 3; peers = first ∷ second ∷ third ∷ [] }

-- Due after the first and before the second.
abbrev fresh : Peer
fresh = record { id = 4; port = 0; time_out = pos 200000 }

timers-IsCounted : IsCounted timers
timers-IsCounted = omega arith

timers-IsWhole : IsWhole (pos 0) timers.peers
unfolding to_int int_of times_ℤ quot_ℤ ◌+ℤ◌
timers-IsWhole = (refl, (refl, (refl, tt)))

quiet_rounds_fire_example :
    (l' : PeerList) × (quiet_rounds 9 timers ≡ some (1 ∷ 2 ∷ 3 ∷ [], l')) × (l'.peers ≡ [])
quiet_rounds_fire_example = quiet_rounds_fire 9 timers timers-IsCounted (omega arith)

cancel-deadlines_example :
    (l' : PeerList) × (timer_step timers (message true 2 0 (pos 0)) ≡ some ([], l'))
    × (deadlines (pos 0) l'.peers ≡ erase_id 2 (deadlines (pos 0) timers.peers))
cancel-deadlines_example = cancel-deadlines timers 2 0 timers-IsCounted

start-Placed_example :
    (l' : PeerList) × (timer_step timers (message true 4 0 (pos 200000)) ≡ some ([], l'))
    × (l'.num_peers ≡ 4)
    × Placed fresh (deadlines (pos 0) timers.peers) (deadlines (pos 0) l'.peers)
start-Placed_example = start-Placed timers 4 0 (pos 200000) (omega arith)

abbrev with_fresh : List Peer
with_fresh =
    first ∷ with_time_out fresh (negsuc 39999) ∷ with_time_out second (pos 200000) ∷ third ∷ []

taken : insert_peer timers.peers fresh ≡ some with_fresh
unfolding insert_peer walk link_before to_int int_of times_ℤ quot_ℤ ◌-ℤ◌ ◌+ℤ◌
taken = refl

insert_peer-Placed_example :
    Placed fresh (deadlines (pos 0) timers.peers) (deadlines (pos 0) with_fresh)
insert_peer-Placed_example = insert_peer-Placed timers.peers fresh {new = with_fresh} taken

insert_peer-IsTimely_example :
    (p : Placed fresh (deadlines (pos 0) timers.peers) (deadlines (pos 0) with_fresh)) × IsTimely
      fresh p
insert_peer-IsTimely_example =
    insert_peer-IsTimely timers.peers fresh {new = with_fresh} timers-IsWhole (omega arith) taken

insert_peer_early_example :
    (new : List Peer) × (insert_peer timers.peers fresh ≡ some new)
    × (deadlines (pos 0) new
        ≡ (1, pos 80000)
          ∷ (4, pos 200000 -ℤ pos 160000)
          ∷ (2, pos 80000 +ℤ pos 160000)
          ∷ deadlines (pos 80000 +ℤ pos 160000) (third ∷ []))
unfolding ◌+ℤ◌
insert_peer_early_example =
    insert_peer_early first second third [] fresh timers-IsWhole.0 timers-IsWhole.1.0 (omega arith)
      (omega arith)
