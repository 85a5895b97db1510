-- ===== src/Earlier/Memory.antt =====
-- Arrays of bytes: copies into them, and the numbers that are read from them.
use reliable_udp.Base.{
  List, Option, [], get_or, if◌then◌else◌, length, ltb, negsuc, none, pos, some, suc, zero, ℕ, ℤ,
  ◌*◌, ◌+◌, ◌-◌, ◌^◌, ◌∷◌,
}

-- `memcpy` to a place in an array; what lies behind its end is left out.
unfoldable pub put_at : ℕ → List ℕ → List ℕ → List ℕ
put_at zero [] buffer = buffer
put_at zero (b ∷ bs) [] = []
put_at zero (b ∷ bs) (x ∷ buffer) = b ∷ put_at zero bs buffer
put_at (suc k) bytes [] = []
put_at (suc k) bytes (x ∷ buffer) = x ∷ put_at k bytes buffer

-- What `recvfrom` puts into a buffer; `none` is a return value of -1.
unfoldable pub receive : Option (List ℕ) → List ℕ → List ℕ
receive none buffer = buffer
receive (some bytes) buffer = put_at 0 bytes buffer

-- Its return value.
unfoldable pub received : Option (List ℕ) → ℤ
received none = negsuc 0
received (some bytes) = pos (length bytes)

-- The unsigned int that stands at the start of some bytes, lowest byte first.
unfoldable pub unsigned_of : List ℕ → ℕ
unsigned_of bytes =
    get_or bytes 0 0
    + (get_or bytes 1 0 * 256 + (get_or bytes 2 0 * 65536 + get_or bytes 3 0 * 16777216))

-- The int with these bits.
unfoldable pub signed_of : ℕ → ℤ
signed_of n = if ltb n (2 ^ 31) then pos n else negsuc (2 ^ 32 - n - 1)
