-- ===== src/Server/OneCell.antt =====
-- The searches of tcpdserver.c in a window that holds one number, and for a packet that is the first
-- with its number.
use reliable_udp.Base.{
  ==_refl, List, Option, [], ap, arith, false, get_elem?, lt→ltb, none, refl, replicate, set, some,
  suc, zero, ℕ, ◌+◌, ◌<◌, ◌∙◌, ◌∷◌, ◌≡◌, ◌≢◌,
}
use reliable_udp.Packet.{Packet}
use reliable_udp.Server.{
  find_low_from, find_low_in_buffer, find_low_index_from, holds_seq, lower, seq_of,
}

pub one_cell-holds : (k s : ℕ) → holds_seq (replicate k none) s ≡ false
unfolding holds_seq
one_cell-holds zero s = refl
one_cell-holds (suc k) s = one_cell-holds k s

one_cell-low : (k low : ℕ) → find_low_from low (replicate k none) ≡ low
unfolding find_low_from lower
one_cell-low zero low = refl
one_cell-low (suc k) low = one_cell-low k low

-- A window with one number in it.
pub find_low_from-set :
    (k i n low : ℕ) → i < k → n < low → find_low_from low (set (replicate k none) i (some n)) ≡ n
unfolding find_low_from lower
find_low_from-set zero i n low h l = absurd (omega arith)
find_low_from-set (suc k) zero n low h l = rw (lt→ltb n low l) (one_cell-low k n)
find_low_from-set (suc k) (suc i) n low h l = find_low_from-set k i n low (omega arith) l

no_index : (k j s : ℕ) (found : Option ℕ) → find_low_index_from j found (replicate k none) s ≡ found
unfolding find_low_index_from
no_index zero j s found = refl
no_index (suc k) j s found = no_index k (j + 1) s found

pub find_low_index_from-set :
    (k i j n : ℕ) (found : Option ℕ)
    → i < k
    → find_low_index_from j found (set (replicate k none) i (some n)) n ≡ some (j + i)
unfolding find_low_index_from
find_low_index_from-set zero i j n found h = absurd (omega arith)
find_low_index_from-set (suc k) zero j n found h =
    rw (==_refl n) (no_index k (j + 1) n (some j) ∙ ap some (omega arith))
find_low_index_from-set (suc k) (suc i) j n found h =
    find_low_index_from-set k i (j + 1) n found (omega arith) ∙ ap some (omega arith)

pub set-freed :
    (k i n : ℕ) → set (set (replicate k none) i (some n)) i none ≡ replicate {A = Option ℕ} k none
set-freed zero i n = refl
set-freed (suc k) zero n = refl
set-freed (suc k) (suc i) n = ap (◌∷◌ none) (set-freed k i n)

-- The first packet with a number.
pub find_low_in_buffer-first :
    (ps : List Packet) (n i : ℕ) (p : Packet)
    → get_elem? ps i ≡ some p
    → seq_of p ≡ n
    → ((j : ℕ) (q : Packet) → j < i → get_elem? ps j ≡ some q → seq_of q ≢ n)
    → find_low_in_buffer ps n ≡ some i
unfolding find_low_in_buffer
find_low_in_buffer-first [] n i p at is h = absurd (cc)
find_low_in_buffer-first (q ∷ ps) n zero p at is h = ground arith
find_low_in_buffer-first (q ∷ ps) n (suc i) p at is h = ground (
  arith,
  h 0 q (omega arith) refl,
  find_low_in_buffer-first ps n i p at is (λ j r lt e. h (suc j) r (omega arith) e),
)
