-- ===== src/Earlier/Blocks.antt =====
-- The packets behind the first one: the rest of the file in blocks of 1000 bytes. All four programs
-- count the bytes of these until they have the size of the file.
use reliable_udp.Base.{
  List, Option, [], ap, arith, drop, length, length-append, length-drop, length-take-le, refl, some,
  suc, sym, take, take-all, take-append-drop, zero, ℕ, ◌++◌, ◌+◌, ◌/◌, ◌<◌, ◌∙◌, ◌∷◌, ◌≡◌, ◌≤◌,
}

unfoldable pub cut : ℕ → List ℕ → List (List ℕ)
cut zero unread = []
cut (suc k) unread = take 1000 unread ∷ cut k (drop 1000 unread)

abbrev pub block_count : List ℕ → ℕ
block_count unread = (length unread + 999) / 1000

-- The blocks of what is not read yet.
abbrev pub blocks : List ℕ → List (List ℕ)
blocks unread = cut (block_count unread) unread

-- `counted` bytes are counted, and just these blocks are missing from `size`.
abbrev pub Fills : ℕ → ℕ → List (List ℕ) → Type 0
Fills counted size [] = size ≤ counted
Fills counted size (b ∷ bs) =
    (counted < size) × (length b ≤ 1000) × Fills (counted + length b) size bs

abbrev pub join : List (List ℕ) → List ℕ
join [] = []
join (b ∷ bs) = b ++ join bs

cut-Fills :
    (k counted size : ℕ) (unread : List ℕ)
    → block_count unread ≡ k
    → size ≤ counted + length unread
    → (0 < length unread → size ≡ counted + length unread)
    → Fills counted size (cut k unread)
unfolding cut
cut-Fills zero counted size unread e le h = omega arith
cut-Fills (suc k) counted size unread e le h = (
  omega (arith, h (omega arith)),
  length-take-le 1000 unread,
  cut-Fills k (counted + length (take 1000 unread)) size (drop 1000 unread)
      (omega (arith, length-drop 1000 unread)) (omega (arith, whole))
      (λ p. omega (arith, whole, h (omega arith))),
)
  where
    whole : length (take 1000 unread) + length (drop 1000 unread) ≡ length unread
    whole =
        sym (length-append (take 1000 unread) (drop 1000 unread))
        ∙ ap length (take-append-drop 1000 unread)

join-cut : (k : ℕ) (unread : List ℕ) → block_count unread ≡ k → join (cut k unread) ≡ unread
unfolding cut
join-cut zero unread e = take-all 0 unread (omega arith)
join-cut (suc k) unread e =
    ap (λ x. take 1000 unread ++ x)
      (join-cut k (drop 1000 unread) (omega (arith, length-drop 1000 unread)))
    ∙ take-append-drop 1000 unread

-- Behind the first packet, which counts for 976 bytes of the file, just the blocks are missing.
pub blocks-Fills : (file : List ℕ) → Fills 976 (length file) (blocks (drop 976 file))
blocks-Fills file =
    cut-Fills (block_count (drop 976 file)) 976 (length file) (drop 976 file) refl
      (omega (arith, length-drop 976 file)) (λ p. omega (arith, length-drop 976 file))

pub join-blocks : (unread : List ℕ) → join (blocks unread) ≡ unread
join-blocks unread = join-cut (block_count unread) unread refl

-- The blocks as what `recvfrom` delivers.
abbrev pub delivered : List (List ℕ) → List (Option (List ℕ))
delivered [] = []
delivered (b ∷ bs) = some b ∷ delivered bs
