-- ===== src/Timer/Insert.antt =====
-- addPeerToList: no fault, and what becomes of the deadlines.
use reliable_udp.Base.{
  int_of, Bool-cases, List, [], ap, ap₂, arith, false, inl, inr, int_laws, leb_ℤ, leb_ℤ→gt, none,
  pos, quot_ℤ, refl, some, some_inj, subst, times_ℤ, true, ℤ, ◌+ℤ◌, ◌-ℤ◌, ◌<ℤ◌, ◌∙◌, ◌∷◌, ◌≡◌, ◌≢◌,
  ◌≤ℤ◌, ◌⊎◌,
}
use reliable_udp.Timer.{Peer, insert_peer, link_before, to_int, walk, with_time_out}
use reliable_udp.Timer.Deadlines.{IsTimely, IsWhole, IsWholeTime, Placed, deadlines}
use reliable_udp.Timer.Walk.{
  Walked, Walked-IsTimely, Walked-Placed, deadlines-link_before, walk-Walked,
}

front_place :
    (h : Peer) (rest : List Peer) (fp : Peer)
    → Placed fp
        (deadlines (pos 0) (h ∷ rest))
        (deadlines (pos 0) (fp ∷ with_time_out h (h.time_out -ℤ fp.time_out) ∷ rest))
front_place h rest fp = record {
  before = [];
  after = deadlines (pos 0) (h ∷ rest);
  due = fp.time_out;
  was = refl;
  now = ap₂ (λ d e. (fp.id, d) ∷ (h.id, e) ∷ deadlines e rest) (omega int_laws) (omega int_laws);
}

empty_place : (fp : Peer) → Placed fp [] (deadlines (pos 0) (fp ∷ []))
empty_place fp = record {
  before = [];
  after = [];
  due = fp.time_out;
  was = refl;
  now = ap (λ d. (fp.id, d) ∷ []) (omega int_laws);
}

-- The two ways in which a non-empty list takes a node.
insert_peer-cases :
    (h : Peer) (rest : List Peer) (fp : Peer) (new : List Peer)
    → insert_peer (h ∷ rest) fp ≡ some new
    → (fp ∷ with_time_out h (h.time_out -ℤ fp.time_out) ∷ rest ≡ new)
      ⊎ ((h.time_out <ℤ fp.time_out) × Walked fp false (to_int h.time_out) h rest new)
unfolding insert_peer
insert_peer-cases h rest fp new e = elim (Bool-cases (leb_ℤ fp.time_out h.time_out)) [
  | inl le ↦ inl (some_inj (rw le at e))
  | inr gt ↦
      inr (leb_ℤ→gt fp.time_out h.time_out gt, walk-Walked false _ h rest fp new (rw gt at e))
]

placed_in :
    (h : Peer) (rest : List Peer) (fp : Peer) {new : List Peer}
    → (fp ∷ with_time_out h (h.time_out -ℤ fp.time_out) ∷ rest ≡ new)
      ⊎ ((h.time_out <ℤ fp.time_out) × Walked fp false (to_int h.time_out) h rest new)
    → Placed fp (deadlines (pos 0) (h ∷ rest)) (deadlines (pos 0) new)
placed_in h rest fp (inl front) =
    subst (λ n. Placed fp (deadlines (pos 0) (h ∷ rest)) (deadlines (pos 0) n)) front
      (front_place h rest fp)
placed_in h rest fp (inr (lt, w)) = Walked-Placed fp false (pos 0) (to_int h.time_out) h rest w

-- Adding a timer by `addPeerToList` leaves the deadline of every running timer as it was, and puts
-- one deadline, with the new node's id, among them.
pub insert_peer-Placed :
    (l : List Peer) (fp : Peer) {new : List Peer}
    → insert_peer l fp ≡ some new
    → Placed fp (deadlines (pos 0) l) (deadlines (pos 0) new)
unfolding insert_peer
insert_peer-Placed [] fp e =
    subst (λ n. Placed fp [] (deadlines (pos 0) n)) (some_inj e) (empty_place fp)
insert_peer-Placed (h ∷ rest) fp {new} e = placed_in h rest fp (insert_peer-cases h rest fp new e)

from_zero : (t : ℤ) → t ≡ pos 0 +ℤ t
from_zero t = omega int_laws

placed_in-IsTimely :
    (h : Peer) (rest : List Peer) (fp : Peer) {new : List Peer}
    (how : (fp ∷ with_time_out h (h.time_out -ℤ fp.time_out) ∷ rest ≡ new)
      ⊎ ((h.time_out <ℤ fp.time_out) × Walked fp false (to_int h.time_out) h rest new))
    → pos 0 <ℤ fp.time_out
    → IsWhole (pos 0) (h ∷ rest)
    → (p : Placed fp (deadlines (pos 0) (h ∷ rest)) (deadlines (pos 0) new)) × IsTimely fp p
placed_in-IsTimely h rest fp (inl front) positive whole =
    subst
      (λ n. (p : Placed fp (deadlines (pos 0) (h ∷ rest)) (deadlines (pos 0) n)) × IsTimely fp p)
      front (front_place h rest fp, unfold front_place in (omega arith, λ a. refl))
placed_in-IsTimely h rest fp (inr (lt, w)) positive whole = (
  Walked-Placed fp false (pos 0) (to_int h.time_out) h rest w,
  Walked-IsTimely fp false (pos 0) (to_int h.time_out) h rest w
      (ap to_int (from_zero h.time_out) ∙ whole.0) (omega arith) whole.1,
)

-- In a list whose timers run out at whole microseconds below 2 ^ 31 the new timer, with a positive time, is placed at a deadline that is at
-- most its time, and is exactly its time where no node comes after it.
pub insert_peer-IsTimely :
    (l : List Peer) (fp : Peer) {new : List Peer}
    → IsWhole (pos 0) l
    → pos 0 <ℤ fp.time_out
    → insert_peer l fp ≡ some new
    → (p : Placed fp (deadlines (pos 0) l) (deadlines (pos 0) new)) × IsTimely fp p
unfolding insert_peer
insert_peer-IsTimely [] fp whole positive e =
    subst (λ n. (p : Placed fp [] (deadlines (pos 0) n)) × IsTimely fp p) (some_inj e)
      (empty_place fp, unfold empty_place in (omega arith, λ a. refl))
insert_peer-IsTimely (h ∷ rest) fp {new} whole positive e =
    placed_in-IsTimely h rest fp (insert_peer-cases h rest fp new e) positive whole

to_int-lt : (h t : ℤ) → pos 0 <ℤ t → h <ℤ t → to_int h <ℤ t
unfolding to_int int_of ◌+ℤ◌ times_ℤ quot_ℤ
to_int-lt h t p q = ground arith

walk-ne-none :
    (total : ℤ) (temp : Peer) (rest : List Peer) (fp : Peer) → walk true total temp rest fp ≢ none
unfolding walk
walk-ne-none total temp [] fp = ground arith
walk-ne-none total temp (next ∷ rest) fp =
    ground (arith, walk-ne-none (to_int (total +ℤ next.time_out)) next rest fp)

-- A timer with a positive time is always added, whatever the list holds: `prev1` is set wherever
-- it is used.
pub insert_peer-ne-none :
    (l : List Peer) (fp : Peer) → pos 0 <ℤ fp.time_out → insert_peer l fp ≢ none
unfolding insert_peer walk
insert_peer-ne-none [] fp p = ground arith
insert_peer-ne-none (h ∷ []) fp p = ground (arith, to_int-lt h.time_out fp.time_out)
insert_peer-ne-none (h ∷ next ∷ rest) fp p = ground (
  arith,
  to_int-lt h.time_out fp.time_out,
  walk-ne-none (to_int (to_int h.time_out +ℤ next.time_out)) next rest fp,
)

-- If the first two timers run out at whole microseconds below 2 ^ 31, a node that runs out after the first and not after the second of three
-- or more gets a deadline that is too early by the second one's time.
pub insert_peer_early :
    (h next third : Peer) (rest : List Peer) (fp : Peer)
    → IsWholeTime h.time_out
    → IsWholeTime (h.time_out +ℤ next.time_out)
    → h.time_out <ℤ fp.time_out
    → fp.time_out ≤ℤ h.time_out +ℤ next.time_out
    → (new : List Peer) × (insert_peer (h ∷ next ∷ third ∷ rest) fp ≡ some new)
      × (deadlines (pos 0) new
          ≡ (h.id, h.time_out)
            ∷ (fp.id, fp.time_out -ℤ next.time_out)
            ∷ (next.id, h.time_out +ℤ next.time_out)
            ∷ deadlines (h.time_out +ℤ next.time_out) (third ∷ rest))
unfolding insert_peer walk
insert_peer_early h next third rest fp wh sum lo hi =
    (h ∷ link_before (h.time_out +ℤ next.time_out) next (third ∷ rest) fp, taken, due)
  where
    taken :
        insert_peer (h ∷ next ∷ third ∷ rest) fp
        ≡ some (h ∷ link_before (h.time_out +ℤ next.time_out) next (third ∷ rest) fp)
    taken = ground (arith, sum, wh)

    due :
        deadlines (pos 0) (h ∷ link_before (h.time_out +ℤ next.time_out) next (third ∷ rest) fp)
        ≡ (h.id, h.time_out)
          ∷ (fp.id, fp.time_out -ℤ next.time_out)
          ∷ (next.id, h.time_out +ℤ next.time_out)
          ∷ deadlines (h.time_out +ℤ next.time_out) (third ∷ rest)
    due =
        ap₂ (λ d e. (h.id, d) ∷ e) (omega int_laws)
          (deadlines-link_before (pos 0 +ℤ h.time_out) (h.time_out +ℤ next.time_out) next
              (third ∷ rest) fp
            ∙ ap₂ (λ d e. (fp.id, d) ∷ (next.id, e) ∷ deadlines e (third ∷ rest)) (omega int_laws)
                (omega int_laws))
