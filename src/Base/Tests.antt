-- ===== src/Base/Tests.antt =====
-- C's conditions: tests on numbers as Booleans, the conditional, and case splits that keep the
-- equation.
use Prim.Native.Nat.{ℕ, zero, suc, ◌+◌, ◌≤◌, ◌<◌, compare, Ordering}
use mathlib.Core.Path.{◌≡◌, refl}
use mathlib.Core.Logic.{◌≢◌, ◌⊎◌, inl, inr}
use mathlib.Core.Bool.{Bool, true, false, ◌&&◌}
use mathlib.Core.Option.{Option, none, some}
use mathlib.Core.Option
use mathlib.Core.List.{List, ◌∷◌}
use native.Mathlib.Omega.{arith}
use native.Mathlib.Decide.{ℕ_discrete}

abbrev pub ltb : ℕ → ℕ → Bool
ltb a b = elim (compare a b) [ Ordering.lt ↦ true | _ ↦ false ]

abbrev pub leb : ℕ → ℕ → Bool
leb a b = elim (compare a b) [ Ordering.gt ↦ false | _ ↦ true ]

infix 50 ◌==◌
abbrev pub ◌==◌ : ℕ → ℕ → Bool
a == b = elim (compare a b) [ Ordering.eq ↦ true | _ ↦ false ]

infix 1 if◌then◌else◌
abbrev pub if◌then◌else◌ {ℓ} : {A : Type ℓ} → Bool → A → A → A
if true then x else y = x
if false then x else y = y

pub ==→eq : (a b : ℕ) → (a == b) ≡ true → a ≡ b
==→eq a b h = ground arith

pub ==→ne : (a b : ℕ) → (a == b) ≡ false → a ≢ b
==→ne a b h = ground arith

pub eq→== : (a b : ℕ) → a ≡ b → (a == b) ≡ true
eq→== a b h = ground arith

pub ne→== : (a b : ℕ) → a ≢ b → (a == b) ≡ false
ne→== a b h = ground arith

pub ==_refl : (a : ℕ) → (a == a) ≡ true
==_refl a = ground arith

pub ltb→lt : (a b : ℕ) → ltb a b ≡ true → a < b
ltb→lt a b h = ground arith

pub lt→ltb : (a b : ℕ) → a < b → ltb a b ≡ true
lt→ltb a b h = ground arith

pub ltb→ge : (a b : ℕ) → ltb a b ≡ false → b ≤ a
ltb→ge a b h = ground arith

pub ≥→ltb : (a b : ℕ) → b ≤ a → ltb a b ≡ false
≥→ltb a b h = ground arith

pub Bool-cases : (b : Bool) → (b ≡ true) ⊎ (b ≡ false)
Bool-cases true = inl refl
Bool-cases false = inr refl

pub Option-cases {ℓ} : {A : Type ℓ} (o : Option A) → (o ≡ none) ⊎ ((a : A) × (o ≡ some a))
Option-cases none = inl refl
Option-cases (some a) = inr (a, refl)

-- An int that is a sequence number, or -1, which is `none`.
abbrev pub is_seq : Option ℕ → ℕ → Bool
is_seq none s = false
is_seq (some r) s = r == s

-- The successor of such an int: -1 + 1 is 0.
abbrev pub seq_after : Option ℕ → ℕ
seq_after none = 0
seq_after (some s) = s + 1

pub some_inj {ℓ} : {A : Type ℓ} {a b : A} → some a ≡ some b → a ≡ b
some_inj e = cc

-- A list that a recursive call under `Option.map` has put an element in front of.
pub map-cons_inv {ℓ} :
    {A : Type ℓ} (x : A) (o : Option (List A)) (ys : List A)
    → Option.map (◌∷◌ x) o ≡ some ys
    → (xs : List A) × (o ≡ some xs) × (x ∷ xs ≡ ys)
map-cons_inv x none ys e = absurd (cc)
map-cons_inv x (some xs) ys e = (xs, refl, some_inj e)

-- A test that holds for every number below `n`, by trying them all.
unfoldable pub all_below : ℕ → (ℕ → Bool) → Bool
all_below zero holds = true
all_below (suc k) holds = all_below k holds && holds k

and_parts : (a b : Bool) → (a && b) ≡ true → (a ≡ true) × (b ≡ true)
and_parts true b e = (refl, e)
and_parts false b e = absurd (cc)

pub all_below-get :
    (n : ℕ) (holds : ℕ → Bool) (i : ℕ) → all_below n holds ≡ true → i < n → holds i ≡ true
unfolding all_below
all_below-get zero holds i e h = absurd (omega arith)
all_below-get (suc k) holds i e h =
    let (before, last) = and_parts (all_below k holds) (holds k) e in
    elim (ℕ_discrete i k) [
      | yes same ↦ rw same last
      | no other ↦ all_below-get k holds i before (omega arith)
    ]
