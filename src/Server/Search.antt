-- ===== src/Server/Search.antt =====
-- The searches of tcpdserver.c: what they find is there.
use reliable_udp.Base.{
  ==_refl, Bool-cases, List, Option, Option-cases, [], arith, get_elem?, if◌then◌else◌, inl, inr,
  is_seq, length, none, set, some, suc, true, zero, ℕ, ◌+◌, ◌<◌, ◌==◌, ◌∷◌, ◌≡◌, ◌≤◌, ◌⊎◌,
}
use reliable_udp.Packet.{Packet}
use reliable_udp.Server.{find_low_in_buffer, find_low_index, find_low_index_from, holds_seq, seq_of}

pub holds_seq-set :
    (w : List (Option ℕ)) (i m n : ℕ)
    → holds_seq (set w i (some m)) n ≡ true
    → (m ≡ n) ⊎ (holds_seq w n ≡ true)
unfolding holds_seq
holds_seq-set [] i m n h = inr h
holds_seq-set (c ∷ cs) zero m n h = ground arith
holds_seq-set (c ∷ cs) (suc i) m n h = ground (arith, holds_seq-set cs i m n)

pub holds_seq-set_self :
    (w : List (Option ℕ)) (i m : ℕ) → i < length w → holds_seq (set w i (some m)) m ≡ true
unfolding holds_seq
holds_seq-set_self [] i m h = absurd (omega arith)
holds_seq-set_self (c ∷ cs) zero m h = ground (arith, ==_refl m)
holds_seq-set_self (c ∷ cs) (suc i) m h = ground (arith, holds_seq-set_self cs i m)

pub holds_seq-set-none :
    (w : List (Option ℕ)) (i n : ℕ) → holds_seq (set w i none) n ≡ true → holds_seq w n ≡ true
unfolding holds_seq
holds_seq-set-none [] i n h = h
holds_seq-set-none (c ∷ cs) zero n h = ground arith
holds_seq-set-none (c ∷ cs) (suc i) n h = ground (arith, holds_seq-set-none cs i n)

find_low_index_from-holds :
    (i : ℕ) (index : Option ℕ) (w : List (Option ℕ)) (n c : ℕ)
    → find_low_index_from i index w n ≡ some c
    → (index ≡ some c) ⊎ (holds_seq w n ≡ true)
unfolding find_low_index_from holds_seq
find_low_index_from-holds i index [] n c h = inl h
find_low_index_from-holds i index (d ∷ ds) n c h =
    ground
      (arith, find_low_index_from-holds (i + 1) (if is_seq d n then some i else index) ds n c h)

pub find_low_index-holds :
    (w : List (Option ℕ)) (n c : ℕ) → find_low_index w n ≡ some c → holds_seq w n ≡ true
unfolding find_low_index
find_low_index-holds w n c h = ground (arith, find_low_index_from-holds 0 none w n c h)

pub find_low_in_buffer-some :
    (ps : List Packet) (n i : ℕ)
    → find_low_in_buffer ps n ≡ some i
    → (p : Packet) × (get_elem? ps i ≡ some p) × (seq_of p ≡ n)
unfolding find_low_in_buffer
find_low_in_buffer-some [] n i h = absurd (ground arith)
find_low_in_buffer-some (p ∷ ps) n i h = elim (Bool-cases (seq_of p == n)) [
  | inl here ↦ (p, ground arith, ground arith)
  | inr not_here ↦ elim (Option-cases (find_low_in_buffer ps n)) [
    | inl lost ↦ absurd (ground arith)
    | inr (j, found) ↦
        let (q, at, is) = find_low_in_buffer-some ps n j found in (q, ground (arith, found, at), is)
  ]
]

pub find_low_in_buffer-le :
    (ps : List Packet) (n i j : ℕ) (p : Packet)
    → find_low_in_buffer ps n ≡ some i
    → get_elem? ps j ≡ some p
    → seq_of p ≡ n
    → i ≤ j
unfolding find_low_in_buffer
find_low_in_buffer-le [] n i j p h g e = absurd (ground arith)
find_low_in_buffer-le (q ∷ ps) n i zero p h g e = ground arith
find_low_in_buffer-le (q ∷ ps) n i (suc j) p h g e = elim (Option-cases (find_low_in_buffer ps n)) [
  | inl lost ↦ ground arith
  | inr (k, found) ↦ ground (arith, find_low_in_buffer-le ps n k j p found g e)
]
