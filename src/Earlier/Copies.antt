-- ===== src/Earlier/Copies.antt =====
-- What stands in an array after a copy.
use reliable_udp.Base.{
  List, [], append-nil, sym, ap, append_assoc, arith, drop-length-append, length-append,
  take-length-append, drop, length, refl, suc, take, zero, ℕ, ◌++◌, ◌+◌, ◌∙◌, ◌∷◌, ◌≡◌, ◌≤◌,
}
use reliable_udp.Earlier.Memory.{put_at, unsigned_of}

pub length-put_at : (k : ℕ) (bytes buffer : List ℕ) → length (put_at k bytes buffer) ≡ length buffer
unfolding put_at
length-put_at zero [] buffer = refl
length-put_at zero (b ∷ bytes) [] = refl
length-put_at zero (b ∷ bytes) (x ∷ buffer) = ap suc (length-put_at zero bytes buffer)
length-put_at (suc k) bytes [] = refl
length-put_at (suc k) bytes (x ∷ buffer) = ap suc (length-put_at k bytes buffer)

-- A copy over a part of the same length leaves the rest.
pub put_at-append :
    (bytes part rest : List ℕ)
    → length bytes ≡ length part
    → put_at 0 bytes (part ++ rest) ≡ bytes ++ rest
unfolding put_at
put_at-append [] [] rest h = refl
put_at-append [] (p ∷ part) rest h = absurd (omega arith)
put_at-append (b ∷ bytes) [] rest h = absurd (omega arith)
put_at-append (b ∷ bytes) (p ∷ part) rest h =
    ap (◌∷◌ b) (put_at-append bytes part rest (omega arith))

-- A copy that fits stands between what was before it and what was behind it.
pub put_at-fits :
    (k : ℕ) (bytes buffer : List ℕ)
    → k + length bytes ≤ length buffer
    → put_at k bytes buffer ≡ take k buffer ++ (bytes ++ drop (k + length bytes) buffer)
unfolding put_at
put_at-fits zero [] buffer h = ap (λ n. drop n buffer) {x = 0} {y = 0 + 0} (omega arith)
put_at-fits zero (b ∷ bytes) [] h = absurd (omega arith)
put_at-fits zero (b ∷ bytes) (x ∷ buffer) h = ap (◌∷◌ b) (
    put_at-fits zero bytes buffer (omega arith)
    ∙ ap (λ n. bytes ++ drop n (x ∷ buffer)) {x = suc (0 + length bytes)}
        {y = 0 + suc (length bytes)} (omega arith))
put_at-fits (suc k) bytes [] h = absurd (omega arith)
put_at-fits (suc k) bytes (x ∷ buffer) h = ap (◌∷◌ x) (
    put_at-fits k bytes buffer (omega arith)
    ∙ ap (λ n. take k buffer ++ (bytes ++ drop n (x ∷ buffer))) {x = suc (k + length bytes)}
        {y = suc k + length bytes} (omega arith))

-- What was copied to the front is read back by its length, and the rest of it from any place on.
pub take-put_at :
    (bytes buffer : List ℕ)
    → length bytes ≤ length buffer
    → take (length bytes) (put_at 0 bytes buffer) ≡ bytes
take-put_at bytes buffer h =
    ap (take (length bytes)) (put_at-fits 0 bytes buffer (omega arith))
    ∙ take-length-append bytes (drop (0 + length bytes) buffer)

pub drop-put_at :
    (part bytes buffer : List ℕ)
    → length part + length bytes ≤ length buffer
    → take (length bytes) (drop (length part) (put_at 0 (part ++ bytes) buffer)) ≡ bytes
drop-put_at part bytes buffer h =
    ap (λ x. take (length bytes) (drop (length part) x))
      (put_at-fits 0 (part ++ bytes) buffer (omega (arith, length-append part bytes))
        ∙ append_assoc part bytes (drop (0 + length (part ++ bytes)) buffer))
    ∙ ap (take (length bytes))
        (drop-length-append part (bytes ++ drop (0 + length (part ++ bytes)) buffer))
    ∙ take-length-append bytes (drop (0 + length (part ++ bytes)) buffer)

-- A copy that fills the array.
pub put_at-whole :
    (bytes buffer : List ℕ) → length bytes ≡ length buffer → put_at 0 bytes buffer ≡ bytes
put_at-whole bytes buffer h =
    ap (put_at 0 bytes) (sym (append-nil buffer))
    ∙ put_at-append bytes buffer [] h
    ∙ append-nil bytes

-- A copy leaves what stands before it and what stands behind it.
pub take-put_at_before :
    (n k : ℕ) (bytes buffer : List ℕ) → n ≤ k → take n (put_at k bytes buffer) ≡ take n buffer
unfolding put_at
take-put_at_before zero k bytes buffer h = refl
take-put_at_before (suc n) zero bytes buffer h = absurd (omega arith)
take-put_at_before (suc n) (suc k) bytes [] h = refl
take-put_at_before (suc n) (suc k) bytes (x ∷ buffer) h =
    ap (◌∷◌ x) (take-put_at_before n k bytes buffer (omega arith))

pub drop-put_at_behind :
    (n k : ℕ) (bytes buffer : List ℕ)
    → k + length bytes ≤ n
    → drop n (put_at k bytes buffer) ≡ drop n buffer
unfolding put_at
drop-put_at_behind n zero [] buffer h = refl
drop-put_at_behind zero zero (b ∷ bytes) buffer h = absurd (omega arith)
drop-put_at_behind (suc n) zero (b ∷ bytes) [] h = refl
drop-put_at_behind (suc n) zero (b ∷ bytes) (x ∷ buffer) h =
    drop-put_at_behind n zero bytes buffer (omega arith)
drop-put_at_behind zero (suc k) bytes buffer h = absurd (omega arith)
drop-put_at_behind (suc n) (suc k) bytes [] h = refl
drop-put_at_behind (suc n) (suc k) bytes (x ∷ buffer) h =
    drop-put_at_behind n k bytes buffer (omega arith)

-- Four bytes make an unsigned int.
pub unsigned_of-take : (bytes : List ℕ) → unsigned_of bytes ≡ unsigned_of (take 4 bytes)
unfolding unsigned_of
unsigned_of-take [] = refl
unsigned_of-take (a ∷ []) = refl
unsigned_of-take (a ∷ b ∷ []) = refl
unsigned_of-take (a ∷ b ∷ c ∷ []) = refl
unsigned_of-take (a ∷ b ∷ c ∷ d ∷ bytes) = refl
