-- ===== src/Client/Search.antt =====
-- The searches of tcpdclient.c.
use reliable_udp.Base.{
  ==→eq, Bool-cases, List, Option, [], ap, arith, false, get_elem?, inl, inr, length, none, refl,
  some, some_inj, suc, true, zero, ℕ, ◌+◌, ◌<◌, ◌==◌, ◌∙◌, ◌∷◌, ◌≡◌, ◌≢◌,
}
use reliable_udp.Client.{
  find_in_buffer, free_cells, last_slot_from, slot_is, window_empty, window_holds,
}
use reliable_udp.Packet.{Packet}

-- The first slot with the number is found.
pub find_in_buffer-first :
    (cs : List (Option Packet)) (s j : ℕ) (c : Option Packet)
    → get_elem? cs j ≡ some c
    → slot_is c s ≡ true
    → ((i : ℕ) (b : Option Packet) → i < j → get_elem? cs i ≡ some b → slot_is b s ≡ false)
    → find_in_buffer cs s ≡ j
unfolding find_in_buffer
find_in_buffer-first [] s j c e h before = absurd (cc)
find_in_buffer-first (b ∷ cs) s zero c e h before = ground arith
find_in_buffer-first (b ∷ cs) s (suc j) c e h before =
    rw (before 0 b (omega arith) refl)
      (ap suc (find_in_buffer-first cs s j c e h (λ i d lt. before (suc i) d (omega arith))))

last_slot_from-none :
    (j : ℕ) (found : Option ℕ) (cs : List (Option Packet)) (s : ℕ)
    → ((i : ℕ) (b : Option Packet) → get_elem? cs i ≡ some b → slot_is b s ≡ false)
    → last_slot_from j found cs s ≡ found
unfolding last_slot_from
last_slot_from-none j found [] s h = refl
last_slot_from-none j found (c ∷ cs) s h =
    rw (h 0 c refl) (last_slot_from-none (j + 1) found cs s (λ i b. h (suc i) b))

-- The only slot with the number is found.
pub last_slot_from-only :
    (k : ℕ) (found : Option ℕ) (cs : List (Option Packet)) (s j : ℕ) (c : Option Packet)
    → get_elem? cs j ≡ some c
    → slot_is c s ≡ true
    → ((i : ℕ) (b : Option Packet) → i ≢ j → get_elem? cs i ≡ some b → slot_is b s ≡ false)
    → last_slot_from k found cs s ≡ some (k + j)
unfolding last_slot_from
last_slot_from-only k found [] s j c e h others = absurd (cc)
last_slot_from-only k found (b ∷ cs) s zero c e h others =
    rw (ap (λ x. slot_is x s) (some_inj e) ∙ h) (
      last_slot_from-none (k + 1) (some k) cs s
        (λ i d. others (suc i) d (λ q. absurd (omega arith)))
      ∙ ap some (omega arith))
last_slot_from-only k found (b ∷ cs) s (suc j) c e h others = rw (others 0 b (omega arith) refl) (
    last_slot_from-only (k + 1) found cs s j c e h
      (λ i d ne. others (suc i) d (λ q. ne (omega arith)))
    ∙ ap some (omega arith))

-- A number that the window holds stands in one of its cells.
pub window_holds-get :
    (w : List (Option ℕ)) (s : ℕ)
    → window_holds w s ≡ true
    → (i : ℕ) × (get_elem? w i ≡ some (some s))
unfolding window_holds
window_holds-get [] s h = absurd (cc)
window_holds-get (none ∷ cs) s h = let (i, e) = window_holds-get cs s h in (suc i, e)
window_holds-get (some r ∷ cs) s h = elim (Bool-cases (r == s)) [
  | inl here ↦ (0, ap (λ x. some (some x)) (==→eq r s here))
  | inr there ↦ let (i, e) = window_holds-get cs s (rw there at h) in (suc i, e)
]

-- Freeing a number's cells leaves the cells of the other numbers, and no cell of this one.
pub get_elem?-free_cells :
    (w : List (Option ℕ)) (s i r : ℕ)
    → get_elem? (free_cells w s) i ≡ some (some r)
    → (get_elem? w i ≡ some (some r)) × (r ≢ s)
unfolding free_cells
get_elem?-free_cells [] s i r h = absurd (cc)
get_elem?-free_cells (c ∷ cs) s (suc i) r h = get_elem?-free_cells cs s i r h
get_elem?-free_cells (none ∷ cs) s zero r h = absurd (ground arith)
get_elem?-free_cells (some q ∷ cs) s zero r h = ground arith

pub get_elem?-free_cells_ne :
    (w : List (Option ℕ)) (s i r : ℕ)
    → get_elem? w i ≡ some (some r)
    → r ≢ s
    → get_elem? (free_cells w s) i ≡ some (some r)
unfolding free_cells
get_elem?-free_cells_ne [] s i r h ne = absurd (cc)
get_elem?-free_cells_ne (c ∷ cs) s (suc i) r h ne = get_elem?-free_cells_ne cs s i r h ne
get_elem?-free_cells_ne (none ∷ cs) s zero r h ne = absurd (cc)
get_elem?-free_cells_ne (some q ∷ cs) s zero r h ne = ground arith

pub length-free_cells : (w : List (Option ℕ)) (s : ℕ) → length (free_cells w s) ≡ length w
unfolding free_cells
length-free_cells [] s = refl
length-free_cells (c ∷ cs) s = ap suc (length-free_cells cs s)

-- An empty window has no number in any cell.
pub window_empty-get :
    (w : List (Option ℕ)) (i r : ℕ) → window_empty w ≡ true → get_elem? w i ≢ some (some r)
unfolding window_empty
window_empty-get [] i r h e = cc
window_empty-get (none ∷ cs) zero r h e = cc
window_empty-get (none ∷ cs) (suc i) r h e = window_empty-get cs i r h e
window_empty-get (some s ∷ cs) i r h e = cc

-- A window with no number in any cell is empty.
pub window_empty-none :
    (w : List (Option ℕ)) → ((i r : ℕ) → get_elem? w i ≢ some (some r)) → window_empty w ≡ true
unfolding window_empty
window_empty-none [] h = refl
window_empty-none (none ∷ cs) h = window_empty-none cs (λ i. h (suc i))
window_empty-none (some s ∷ cs) h = absurd (h 0 s refl)
