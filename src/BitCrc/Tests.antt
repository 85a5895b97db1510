-- ===== src/BitCrc/Tests.antt =====
-- One char, and a division of its bits.
use reliable_udp.Base.{List, [], refl, replicate, some, ℕ, ◌∷◌, ◌≡◌, ◌≤◌}
use reliable_udp.BitCrc.{char_bits, divide, extract_binary, position_of_one, xor_bits, xor_from}
use reliable_udp.BitCrc.Division.{divide_ends}

abbrev input : List ℕ
input = extract_binary (3 ∷ []) (replicate 16 0)

left_over : position_of_one (divide 8 8 input) ≡ some 20
unfolding position_of_one divide xor_from xor_bits extract_binary char_bits
left_over = refl

divide_ends_example : 8 ≤ 20
divide_ends_example = divide_ends 8 input 20 left_over
