-- ===== src/DeltaList/Erase.antt =====
-- delPeerFromList of timer_def.h for an acknowledged packet.
use reliable_udp.Base.{
  Bool-cases, List, Option, Option-cases, [], ap, arith, if◌then◌else◌, inl, inr, length,
  map-cons_inv, none, refl, some, some_inj, subst, true, ℕ, ◌+◌, ◌<◌, ◌==◌, ◌∷◌, ◌≡◌, ◌≤◌,
}
use reliable_udp.DeltaList.{Peer, PeerList, add_word, del_peer_from_list, hand_over, unlink}
use reliable_udp.DeltaList.Exact.{Deadline, deadlines, span}
use mathlib.Core.Option

-- The first deadline of this id taken out.
abbrev pub erase_id : ℕ → List Deadline → List Deadline
erase_id id [] = []
erase_id id (d ∷ ds) = if d.0 == id then ds else d ∷ erase_id id ds

-- The counter counts no node too few.
abbrev pub IsCounted : PeerList → Type 0
IsCounted l = length l.peers ≤ l.num_peers

hand_over-deadlines :
    (t : ℕ) (p : Peer) (rest : List Peer)
    → span (p ∷ rest) < 4294967296
    → deadlines t (hand_over true p rest) ≡ deadlines (t + p.time_out) rest
unfolding hand_over add_word
hand_over-deadlines t p [] fits = refl
hand_over-deadlines t p (next ∷ rest) fits = ap (λ e. (next.id, e) ∷ deadlines e rest) (omega arith)

unlink_later :
    (t : ℕ) (id : ℕ) (p : Peer) (ps : List Peer) (o : Option (List Peer)) (rest : List Peer)
    → ((r : List Peer)
        → o ≡ some r
        → deadlines (t + p.time_out) r ≡ erase_id id (deadlines (t + p.time_out) ps))
    → Option.map (◌∷◌ p) o ≡ some rest
    → deadlines t rest ≡ (p.id, t + p.time_out) ∷ erase_id id (deadlines (t + p.time_out) ps)
unlink_later t id p ps o rest ih m =
    let (r, found, is) = map-cons_inv p o rest m in
    subst
      (λ x. deadlines t x ≡ (p.id, t + p.time_out) ∷ erase_id id (deadlines (t + p.time_out) ps)) is
      (ap (◌∷◌ (p.id, t + p.time_out)) (ih r found))

unlink-deadlines :
    (t : ℕ) (id : ℕ) (l rest : List Peer)
    → span l < 4294967296
    → unlink id true l ≡ some rest
    → deadlines t rest ≡ erase_id id (deadlines t l)
unfolding unlink
unlink-deadlines t id [] rest fits e = absurd (ground arith)
unlink-deadlines t id (p ∷ ps) rest fits e = elim (Bool-cases (p.id == id)) [
  | inl same ↦ rw same (
      subst (λ r. deadlines t r ≡ deadlines (t + p.time_out) ps) (some_inj (rw same at e))
        (hand_over-deadlines t p ps fits))
  | inr other ↦ rw other (
      unlink_later t id p ps (unlink id true ps) rest
        (λ r. unlink-deadlines (t + p.time_out) id ps r (omega arith)) (rw other at e))
]

unlink-none :
    (t : ℕ) (id : ℕ) (l : List Peer)
    → unlink id true l ≡ none
    → erase_id id (deadlines t l) ≡ deadlines t l
unfolding unlink
unlink-none t id [] e = refl
unlink-none t id (p ∷ ps) e = elim (Bool-cases (p.id == id)) [
  | inl same ↦ absurd (ground arith)
  | inr other ↦ rw other (
      ap (◌∷◌ (p.id, t + p.time_out))
        (unlink-none (t + p.time_out) id ps (map-none (unlink id true ps) (rw other at e))))
]
  where
    map-none : (o : Option (List Peer)) → Option.map (◌∷◌ p) o ≡ none → o ≡ none
    map-none none q = refl
    map-none (some r) q = absurd (cc)

unlink-length : (id : ℕ) (l rest : List Peer) → unlink id true l ≡ some rest → 0 < length l
unfolding unlink
unlink-length id [] rest e = absurd (ground arith)
unlink-length id (p ∷ ps) rest e = omega arith

-- Where no sum of times reaches 2 ^ 32 and the counter counts no node too few, deleting an
-- acknowledged timer in timer_def.h takes out the first deadline of its id, if there is one, and
-- leaves every other deadline as it was.
pub del_peer_from_list-deadlines :
    (l : PeerList) (id : ℕ)
    → span l.peers < 4294967296
    → IsCounted l
    → deadlines 0 (del_peer_from_list l id true).0.peers ≡ erase_id id (deadlines 0 l.peers)
unfolding del_peer_from_list
del_peer_from_list-deadlines l id fits counted = elim (Option-cases (unlink id true l.peers)) [
  | inl absent ↦ ground (arith, unlink-none 0 id l.peers absent)
  | inr (rest, found) ↦
      ground
        (arith, unlink-length id l.peers rest found, unlink-deadlines 0 id l.peers rest fits found)
]
