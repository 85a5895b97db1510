-- ===== src/BitCrc.antt =====
-- The CRC of crc.c, a division of arrays of bits. `struct tcpheader` is not declared for that file:
-- its size is a parameter, and so is what the memory holds behind the padding.
pub mod Division
mod Tests
use reliable_udp.Base.{
  List, Option, [], drop, if◌then◌else◌, length, ltb, map, none, replicate, some, suc, take, zero,
  ℕ, ◌%◌, ◌*◌, ◌++◌, ◌+◌, ◌/◌, ◌==◌, ◌^◌, ◌∷◌,
}
use mathlib.Core.Option
use Prim.Native.Nat.{bit_xor}

-- X^16 + X^2 + 1.
abbrev pub polynomial : List ℕ
polynomial = 1 ∷ 0 ∷ 0 ∷ 0 ∷ 0 ∷ 0 ∷ 0 ∷ 0 ∷ 0 ∷ 0 ∷ 0 ∷ 0 ∷ 0 ∷ 0 ∷ 1 ∷ 0 ∷ 1 ∷ []

-- The bits of one char, the highest first.
unfoldable pub char_bits : ℕ → List ℕ
char_bits c =
    c / 128 % 2
    ∷ c / 64 % 2
    ∷ c / 32 % 2
    ∷ c / 16 % 2
    ∷ c / 8 % 2
    ∷ c / 4 % 2
    ∷ c / 2 % 2
    ∷ c % 2
    ∷ []

-- `extractBinary`: the bits of the chars, and the padding.
unfoldable pub extract_binary : List ℕ → List ℕ → List ℕ
extract_binary [] padding = padding
extract_binary (c ∷ cs) padding = char_bits c ++ extract_binary cs padding

-- `positionOfOne`; `none` is -1.
unfoldable pub position_of_one : List ℕ → Option ℕ
position_of_one [] = none
position_of_one (b ∷ bs) =
    let rest = position_of_one bs in if b == 1 then some 0 else Option.map suc rest

-- `binaryToDec`.
unfoldable pub binary_to_dec : List ℕ → ℕ
binary_to_dec [] = 0
binary_to_dec (b ∷ bs) = b * 2 ^ length bs + binary_to_dec bs

-- The polynomial taken off from a position on.
unfoldable pub xor_bits : List ℕ → List ℕ → List ℕ
xor_bits [] bs = bs
xor_bits (a ∷ cs) [] = []
xor_bits (a ∷ cs) (b ∷ bs) = bit_xor b a ∷ xor_bits cs bs

unfoldable pub xor_from : ℕ → List ℕ → List ℕ
xor_from zero bs = xor_bits polynomial bs
xor_from (suc i) [] = []
xor_from (suc i) (b ∷ bs) = b ∷ xor_from i bs

-- The `while` loop, in at most so many rounds as the first argument says: `n` are enough for the
-- `n` bits before the padding.
unfoldable pub divide : ℕ → ℕ → List ℕ → List ℕ
divide zero n bs = bs
divide (suc k) n bs = elim (position_of_one bs) [
  | none ↦ bs
  | some p ↦ let next = divide k n (xor_from p bs) in if ltb p n then next else bs
]

-- `rest` stands behind the padding, as many bits as the header has.
unfoldable pub update_crc : List ℕ → List ℕ → ℕ
update_crc chars rest =
    let n = length chars * 8 + length rest in
    binary_to_dec (take 16 (drop n (divide n n (extract_binary chars (replicate 16 0) ++ rest))))
