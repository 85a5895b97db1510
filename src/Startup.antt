-- ===== src/Startup.antt =====
-- What the programs do before their loops: they open sockets, look up hosts, give sockets their
-- ports, and exit where a call that they test has failed. The calls are those of the operating
-- system, a parameter: each one takes the system's state and leaves the next.
use reliable_udp.Base.{Bool, List, [], Option, none, some, ◌∷◌, ℕ, ℤ, ltb_ℤ, pos, true, false}
use reliable_udp.Packet.{PacketData}
pub mod Programs
pub mod Rules
pub mod Machine
pub mod Open
pub mod Order
pub mod Leftover
pub mod FileClient
mod Tests

-- An Internet address and a port, which the programs store in the network's byte order.
pub record Address : Type 0 where
  pub host : ℕ
  pub port : ℕ

-- A negative integer is a failure, as in C. `none` is the null pointer of `gethostbyname` and
-- `fopen`; `getsockname` fills in the address.
pub record Os (S : Type 0) : Type 0 where
  pub socket : S → ℤ × S
  pub bind : S → ℤ → Address → ℤ × S
  pub getsockname : S → ℤ → Option Address × S
  pub gethostbyname : S → List ℕ → Option ℕ × S
  pub fopen : S → List ℕ → Option ℕ × S
  pub sendto : S → ℤ → PacketData → Address → ℤ × S

-- A program that has come to its loop with a value, that has exited with a status, or whose `main`
-- has returned without one, or that has written past an array.
pub data Begun (S A : Type 0) : Type 0 where
  begun : A → S → Begun S A
  ended : ℕ → Begun S A
  returned : Begun S A
  faulted : Begun S A

abbrev pub Action : Type 0 → Type 0 → Type 0
Action S A = S → Begun S A

abbrev pub pure : {S A : Type 0} → A → Action S A
pure a s = begun a s

unfoldable pub then_with : {S A B : Type 0} → Begun S A → (A → Action S B) → Begun S B
then_with (begun a s) f = f a s
then_with (ended n) f = ended n
then_with returned f = returned
then_with faulted f = faulted

infixl 5 ◌>>=◌ ◌>>◌
abbrev pub ◌>>=◌ : {S A B : Type 0} → Action S A → (A → Action S B) → Action S B
◌>>=◌ m f s = then_with (m s) f

abbrev pub ◌>>◌ : {S A B : Type 0} → Action S A → Action S B → Action S B
m >> k = m >>= λ _. k

-- A call with its result.
abbrev pub result : {S A : Type 0} → (A × S) → Begun S A
result r = begun (r.0) (r.1)

unfoldable pub exit_if : {S : Type 0} → Bool → ℕ → Action S (Unit {0})
exit_if true n s = ended n
exit_if false n s = begun tt s

-- A null pointer ends the program.
unfoldable pub or_exit : {S A : Type 0} → Option A → ℕ → Action S A
or_exit none n s = ended n
or_exit (some a) n s = begun a s

unfoldable pub or_return : {S A : Type 0} → Option A → Action S A
or_return none s = returned
or_return (some a) s = begun a s

unfoldable pub or_fault : {S A : Type 0} → Option A → Action S A
or_fault none s = faulted
or_fault (some a) s = begun a s

-- The test that the programs make of a descriptor and of what `bind` returns.
abbrev pub failed : ℤ → Bool
failed d = ltb_ℤ d (pos 0)

-- "127.0.0.1".
abbrev pub local_name : List ℕ
local_name = 49 ∷ 50 ∷ 55 ∷ 46 ∷ 48 ∷ 46 ∷ 48 ∷ 46 ∷ 49 ∷ []

-- INADDR_ANY.
abbrev pub any_host : ℕ
any_host = 0
