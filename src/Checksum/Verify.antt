-- ===== src/Checksum/Verify.antt =====
-- Data and checksum together give a sum of zero in one's complement.
use reliable_udp.Base.{List, [], arith, length, ℕ, ◌%◌, ◌*◌, ◌+◌, ◌<◌, ◌∷◌, ◌≡◌, ◌≤◌}
use reliable_udp.Checksum.{checksum, fold_sum, sum_words}

-- The sum of the 16-bit words of the data, a last single byte included.
abbrev pub total : List ℕ → ℕ
total [] = 0
total (a ∷ []) = a
total (a ∷ b ∷ rest) = a + 256 * b + total rest

abbrev pub AllBytes : List ℕ → Type 0
AllBytes [] = Unit
AllBytes (a ∷ rest) = (a < 256) × AllBytes rest

total-le :
    (data_bytes : List ℕ) → AllBytes data_bytes → total data_bytes ≤ 65535 * length data_bytes
total-le [] h = omega arith
total-le (a ∷ []) h = omega arith
total-le (a ∷ b ∷ rest) h = omega (arith, total-le rest h.1.1)

sum_words-total :
    (sum : ℕ) (data_bytes : List ℕ)
    → sum + total data_bytes < 4294967296
    → sum_words sum data_bytes ≡ sum + total data_bytes
unfolding sum_words
sum_words-total sum [] h = omega arith
sum_words-total sum (a ∷ []) h = omega arith
sum_words-total sum (a ∷ b ∷ rest) h =
    omega (arith, sum_words-total ((sum + (a + 256 * b)) % 4294967296) rest (omega arith))

-- Two rounds of folding leave 16 bits, and the same remainder modulo 65535.
fold_sum_lem :
    (sum : ℕ) → sum < 4294967296 → (fold_sum 2 sum < 65536) × (fold_sum 2 sum % 65535 ≡ sum % 65535)
unfolding fold_sum
fold_sum_lem sum h = ground arith

-- The words of at most 65537 bytes of data and their checksum add up to a multiple of 65535, which
-- is zero in one's complement: the receiver's check succeeds.
pub checksum_verifies :
    (data_bytes : List ℕ)
    → AllBytes data_bytes
    → length data_bytes ≤ 65537
    → (total data_bytes + checksum data_bytes) % 65535 ≡ 0
unfolding checksum
checksum_verifies data_bytes bytes short =
    let fits : total data_bytes < 4294967296 = omega (arith, total-le data_bytes bytes) in
    let sum : sum_words 0 data_bytes ≡ total data_bytes =
      omega (arith, sum_words-total 0 data_bytes (omega arith)) in
    rw sum (omega (arith, fold_sum_lem (total data_bytes) fits))
