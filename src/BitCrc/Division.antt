-- ===== src/BitCrc/Division.antt =====
-- The division comes to its end, and bits and numbers correspond.
use reliable_udp.Base.{
  ==→eq, Bool-cases, List, Option, Option-cases, [], ap, arith, dec_lt, drop, false, if◌then◌else◌,
  inl, inr, ltb, lt→ltb, none, refl, some, some_inj, suc, sym, zero, ℕ, ◌+◌, ◌<◌, ◌==◌, ◌∙◌, ◌∷◌,
  ◌≡◌, ◌≤◌,
}
use reliable_udp.BitCrc.{
  binary_to_dec, char_bits, divide, polynomial, position_of_one, xor_bits, xor_from,
}
use mathlib.Core.Option
use Prim.Native.Nat.{bit_xor}

Option-map-some :
    (o : Option ℕ) (q : ℕ) → Option.map suc o ≡ some q → (r : ℕ) × (o ≡ some r) × (q ≡ suc r)
Option-map-some none q e = absurd (cc)
Option-map-some (some r) q e = (r, refl, sym (some_inj e))

xored_head :
    (b : ℕ) (rest : List ℕ) (q : ℕ) → b ≡ 1 → position_of_one (bit_xor b 1 ∷ rest) ≡ some q → 0 < q
unfolding position_of_one
xored_head b rest q one e =
    let clear : (bit_xor b 1 == 1) ≡ false = ap (λ x. bit_xor x 1 == 1) one in
    let (r, after, on) = Option-map-some (position_of_one rest) q (rw clear at e) in omega arith

-- Taking the polynomial off at the first one moves the first one on.
position_of_one-xor_from :
    (bs : List ℕ) (p q : ℕ)
    → position_of_one bs ≡ some p
    → position_of_one (xor_from p bs) ≡ some q
    → p < q
unfolding position_of_one xor_from xor_bits
position_of_one-xor_from [] p q e f = absurd (cc)
position_of_one-xor_from (b ∷ bs) zero q e f = elim (Bool-cases (b == 1)) [
  | inl one ↦ xored_head b (xor_bits (drop 1 polynomial) bs) q (==→eq b 1 one) f
  | inr other ↦
      let (i, there, is) = Option-map-some (position_of_one bs) zero (rw other at e) in
      absurd (omega arith)
]
position_of_one-xor_from (b ∷ bs) (suc p) q e f = elim (Bool-cases (b == 1)) [
  | inl one ↦ absurd (ground (arith, one))
  | inr other ↦
      let (i, there, is) = Option-map-some (position_of_one bs) (suc p) (rw other at e) in
      let (j, after, on) = Option-map-some (position_of_one (xor_from p bs)) q (rw other at f) in
      omega (arith, position_of_one-xor_from bs p j (there ∙ ap some (omega arith)) after)
]

divide_step :
    (k n : ℕ) (bs : List ℕ) (p : ℕ)
    → position_of_one bs ≡ some p
    → divide (suc k) n bs ≡ (if ltb p n then divide k n (xor_from p bs) else bs)
unfolding divide
divide_step k n bs p at = rw (at, divide) refl

divide_clear : (k n : ℕ) (bs : List ℕ) → position_of_one bs ≡ none → divide (suc k) n bs ≡ bs
unfolding divide
divide_clear k n bs at = rw (at, divide) refl

-- After so many rounds as there are bits before the padding, the loop's condition is false: no one
-- stands before the padding.
divide_from :
    (k n : ℕ) (bs : List ℕ) (q : ℕ)
    → ((p : ℕ) → position_of_one bs ≡ some p → n ≤ p + k)
    → position_of_one (divide k n bs) ≡ some q
    → n ≤ q
divide_from zero n bs q h e = omega (arith, h q (unfold divide in e))
divide_from (suc k) n bs q h e = elim (Option-cases (position_of_one bs)) [
  | inl clear ↦ absurd (cc (clear, ap position_of_one (divide_clear k n bs clear), e))
  | inr (p, at) ↦
      let stepped = ap position_of_one (sym (divide_step k n bs p at)) ∙ e in
      elim (dec_lt p n) [
        | yes lt ↦
            divide_from k n (xor_from p bs) q
              (λ r f. omega (arith, h p at, position_of_one-xor_from bs p r at f))
              (rw (lt→ltb p n lt) at stepped)
        | no ge ↦ ground (arith, at, stepped)
      ]
]

-- For the `n` bits that the loop looks at, `n` rounds are enough: then its condition is false, since
-- the first one that is left, if any, stands behind these bits.
pub divide_ends : (n : ℕ) (bs : List ℕ) (q : ℕ) → position_of_one (divide n n bs) ≡ some q → n ≤ q
divide_ends n bs q e = divide_from n n bs q (λ p at. omega arith) e

-- The bits of a char, taken as a number, are the char.
binary_to_dec-char_bits : (c : ℕ) → c < 256 → binary_to_dec (char_bits c) ≡ c
unfolding binary_to_dec char_bits
binary_to_dec-char_bits c h = omega arith
