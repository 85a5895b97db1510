-- ===== src/Startup/Rules.antt =====
-- How a property of a start-up is put together from those of its calls.
use reliable_udp.Base.{Bool, Option, false, refl, some, true, ℕ, ◌≡◌}
use reliable_udp.Startup.{
  Action, Begun, begun, ended, exit_if, or_exit, result, returned, faulted, then_with,
}

-- What holds where the program comes to its loop, with `E` for where it does not.
unfoldable pub After : {S A : Type 0} → Type 0 → (A → S → Type 0) → Begun S A → Type 0
After E P (begun a s) = P a s
After E P (ended n) = E
After E P returned = E
After E P faulted = E

-- What is said of every program, whether it ends or not.
abbrev pub IfBegun : {S A : Type 0} → (A → S → Type 0) → Begun S A → Type 0
IfBegun = After (Unit {0})

-- The program comes to its loop.
abbrev pub MustBegin : {S A : Type 0} → (A → S → Type 0) → Begun S A → Type 0
MustBegin = After ⊥

pub After-then :
    {S A B : Type 0} (E : Type 0) (P : A → S → Type 0) (Q : B → S → Type 0) (r : Begun S A)
    (f : A → Action S B)
    → After E P r
    → ((a : A) (s : S) → P a s → After E Q (f a s))
    → After E Q (then_with r f)
unfolding then_with After
After-then E P Q (begun a s) f h k = k a s h
After-then E P Q (ended n) f h k = h
After-then E P Q returned f h k = h
After-then E P Q faulted f h k = h

pub After-weaken :
    {S A : Type 0} (E : Type 0) (P Q : A → S → Type 0) (r : Begun S A)
    → After E P r
    → ((a : A) (s : S) → P a s → Q a s)
    → After E Q r
unfolding After
After-weaken E P Q (begun a s) h k = k a s h
After-weaken E P Q (ended n) h k = h
After-weaken E P Q returned h k = h
After-weaken E P Q faulted h k = h

pub MustBegin-begun :
    {S A : Type 0} (P : A → S → Type 0) (r : Begun S A)
    → MustBegin P r
    → (a : A) × (s : S) × (r ≡ begun a s) × P a s
unfolding After
MustBegin-begun P (begun a s) h = (a, s, refl, h)
MustBegin-begun P (ended n) h = absurd h
MustBegin-begun P returned h = absurd h
MustBegin-begun P faulted h = absurd h

-- The rules for a step of a start-up: it is the last, a call, it has its own property, none is
-- needed, or it is a test, which leaves the state.
pub is_begun :
    {S A : Type 0} (E : Type 0) (P : A → S → Type 0) (a : A) (s : S) → P a s → After E P (begun a s)
unfolding After
is_begun E P a s h = h

pub After-call :
    {S A B : Type 0} (E : Type 0) (Q : B → S → Type 0) (r : A × S) (f : A → Action S B)
    → After E Q (f (r.0) (r.1))
    → After E Q (then_with (result r) f)
unfolding then_with
After-call E Q r f h = h

pub if_has :
    {S A B : Type 0} (P : A → S → Type 0) (Q : B → S → Type 0) (r : Begun S A) (f : A → Action S B)
    → IfBegun P r
    → ((a : A) (s : S) → P a s → IfBegun Q (f a s))
    → IfBegun Q (then_with r f)
if_has P Q r f = After-then (Unit {0}) P Q r f

pub if_any :
    {S A B : Type 0} (Q : B → S → Type 0) (r : Begun S A) (f : A → Action S B)
    → ((a : A) (s : S) → IfBegun Q (f a s))
    → IfBegun Q (then_with r f)
unfolding then_with After
if_any Q (begun a s) f k = k a s
if_any Q (ended n) f k = tt
if_any Q returned f k = tt
if_any Q faulted f k = tt

pub if_passes :
    {S B : Type 0} (Q : B → S → Type 0) (b : Bool) (n : ℕ) (s : S) (f : Unit {0} → Action S B)
    → (b ≡ false → IfBegun Q (f tt s))
    → IfBegun Q (then_with (exit_if b n s) f)
unfolding then_with After exit_if
if_passes Q true n s f k = tt
if_passes Q false n s f k = k refl

pub exit_if-false : {S : Type 0} (b : Bool) (n : ℕ) (s : S) → b ≡ false → exit_if b n s ≡ begun tt s
unfolding exit_if
exit_if-false b n s e = rw e refl

pub or_exit-some :
    {S A : Type 0} (o : Option A) (a : A) (n : ℕ) (s : S) → o ≡ some a → or_exit o n s ≡ begun a s
unfolding or_exit
or_exit-some o a n s e = rw e refl

-- How a start-up comes out that goes past a call, a step that must begin, or a test that passes,
-- and one that fails a test.
pub goes_call :
    {S A B : Type 0} (z : Begun S B) (r : A × S) (f : A → Action S B)
    → f (r.0) (r.1) ≡ z
    → then_with (result r) f ≡ z
unfolding then_with
goes_call z r f h = h

pub goes_after :
    {S A B : Type 0} (P : A → S → Type 0) (z : Begun S B) (r : Begun S A) (f : A → Action S B)
    → MustBegin P r
    → ((a : A) (s : S) → P a s → f a s ≡ z)
    → then_with r f ≡ z
unfolding then_with After
goes_after P z (begun a s) f h k = k a s h
goes_after P z (ended m) f h k = absurd h
goes_after P z returned f h k = absurd h
goes_after P z faulted f h k = absurd h

pub goes_past :
    {S B : Type 0} (z : Begun S B) (b : Bool) (k : ℕ) (s : S) (f : Unit {0} → Action S B)
    → b ≡ false
    → f tt s ≡ z
    → then_with (exit_if b k s) f ≡ z
unfolding then_with exit_if
goes_past z b k s f e h = rw e h

pub goes_some :
    {S A B : Type 0} (z : Begun S B) (o : Option A) (a : A) (k : ℕ) (s : S) (f : A → Action S B)
    → o ≡ some a
    → f a s ≡ z
    → then_with (or_exit o k s) f ≡ z
unfolding then_with or_exit
goes_some z o a k s f e h = rw e h

pub goes_begun :
    {S A B : Type 0} (z : Begun S B) (r : Begun S A) (a : A) (s : S) (f : A → Action S B)
    → r ≡ begun a s
    → f a s ≡ z
    → then_with r f ≡ z
unfolding then_with
goes_begun z r a s f e h = rw e h

pub ends_as :
    {S A B : Type 0} (n : ℕ) (r : Begun S A) (f : A → Action S B)
    → r ≡ ended n
    → then_with r f ≡ ended n
unfolding then_with
ends_as n r f e = rw e refl

pub faults_as :
    {S A B : Type 0} (r : Begun S A) (f : A → Action S B) → r ≡ faulted → then_with r f ≡ faulted
unfolding then_with
faults_as r f e = rw e refl

pub ends_here :
    {S B : Type 0} (b : Bool) (n : ℕ) (s : S) (f : Unit {0} → Action S B)
    → b ≡ true
    → then_with (exit_if b n s) f ≡ ended n
unfolding then_with exit_if
ends_here b n s f e = rw e refl
