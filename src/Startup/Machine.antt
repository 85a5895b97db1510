-- ===== src/Startup/Machine.antt =====
-- A machine that grants what it can, and what a socket and its port are given there.
use reliable_udp.Base.{
  Bool, List, Option, false, if◌then◌else◌, inr, refl, some, ℕ, ℤ, ◌==◌, ◌||◌, ◌∙◌, ◌≡◌, ◌∷◌, [],
  ◌⊎◌,
}
use reliable_udp.Startup.{
  Action, Address, Os, any_host, failed, local_name, or_exit, exit_if, then_with,
}
use reliable_udp.Startup.Programs.{Port, bound, host_of, named, sender}
use reliable_udp.Startup.Rules.{
  After-then, MustBegin, After-call, exit_if-false, is_begun, or_exit-some,
}

abbrev pub taken : ℕ → List ℕ → Bool
taken p [] = false
taken p (q ∷ qs) = p == q || taken p qs

-- A bind that fails takes no port.
abbrev pub joined : ℕ → List ℕ → List ℕ
joined p ps = if taken p ps then ps else p ∷ ps

-- A machine with the ports that are taken: sockets are there to be had, the names of this machine
-- and of the other one are known, and exactly a port that is taken cannot be bound again, since
-- the programs bind every address or that of this machine.
pub record IsMachine {S : Type 0} (os : Os S) (ports : S → List ℕ) (remote : List ℕ) : Type 0 where
  pub here : ℕ
  pub opens : (s : S) → failed ((os.socket s).0) ≡ false
  pub opens_keeps : (s : S) → ports ((os.socket s).1) ≡ ports s
  pub finds_here : (s : S) → (os.gethostbyname s local_name).0 ≡ some here
  pub finds_remote : (s : S) → (a : ℕ) × ((os.gethostbyname s remote).0 ≡ some a)
  pub finds_keeps : (s : S) (n : List ℕ) → ports ((os.gethostbyname s n).1) ≡ ports s
  pub files_keep : (s : S) (n : List ℕ) → ports ((os.fopen s n).1) ≡ ports s
  pub names : (s : S) (d : ℤ) → failed d ≡ false → (a : Address) × ((os.getsockname s d).0 ≡ some a)
  pub names_keep : (s : S) (d : ℤ) → ports ((os.getsockname s d).1) ≡ ports s
  pub binds :
      (s : S) (d : ℤ) (a : Address)
      → failed d ≡ false
      → (a.host ≡ any_host) ⊎ (a.host ≡ here)
      → (failed ((os.bind s d a).0) ≡ taken a.port (ports s))
        × (ports ((os.bind s d a).1) ≡ joined a.port (ports s))

module _ {S : Type 0} (os : Os S) (ports : S → List ℕ) (remote : List ℕ)
    (m : IsMachine os ports remote) where
  pub passes :
      {B : Type 0} (Q : B → S → Type 0) (b : Bool) (n : ℕ) (s : S) (f : Unit {0} → Action S B)
      → b ≡ false
      → MustBegin Q (f tt s)
      → MustBegin Q (then_with (exit_if b n s) f)
  unfolding then_with
  passes Q b n s f e h = rw (exit_if-false b n s e) h

  pub found_here :
      (s : S) → MustBegin (λ h t. (h ≡ m.here) × (ports t ≡ ports s)) (host_of os local_name s)
  unfolding host_of or_exit
  found_here s =
      After-call _ _ _ _ (rw (m.finds_here s) (is_begun _ _ _ _ (refl, m.finds_keeps s local_name)))

  pub found_remote : (s : S) → MustBegin (λ _ t. ports t ≡ ports s) (host_of os remote s)
  unfolding host_of or_exit
  found_remote s =
      After-call _ _ _ _ (rw (m.finds_remote s).1 (is_begun _ _ _ _ (m.finds_keeps s remote)))

  -- A socket is open and its address one of this machine.
  abbrev pub IsOwn : Port → Type 0
  IsOwn p = (failed p.sock ≡ false) × ((p.name.host ≡ any_host) ⊎ (p.name.host ≡ m.here))

  pub sender_begins :
      (n : ℕ) (s : S)
      → MustBegin (λ p t. IsOwn p × (p.name.port ≡ n) × (ports t ≡ ports s)) (sender os n s)
  unfolding sender
  sender_begins n s = After-call _ _ _ _ (
      passes _ _ 2 _ _ (m.opens s) (
        After-then _ _ _ _ _ (found_here _)
          λ h t e. is_begun _ _ _ _ ((m.opens s, inr (e.0)), refl, e.1 ∙ m.opens_keeps s)))

  pub bound_begins :
      (d : ℤ) (a : Address) (s : S)
      → failed d ≡ false
      → (a.host ≡ any_host) ⊎ (a.host ≡ m.here)
      → taken a.port (ports s) ≡ false
      → MustBegin (λ p t. (p.sock ≡ d) × (ports t ≡ a.port ∷ ports s)) (bound os d a s)
  unfolding bound
  bound_begins d a s is_open own free =
      let (r, k) = m.binds s d a is_open own in
      After-call _ _ _ _ (passes _ _ 2 _ _ (r ∙ free) (is_begun _ _ _ _ (refl, rw (k, free) refl)))

  gets :
      {A B : Type 0} (Q : B → S → Type 0) (o : Option A) (a : A) (n : ℕ) (s : S)
      (f : A → Action S B)
      → o ≡ some a
      → MustBegin Q (f a s)
      → MustBegin Q (then_with (or_exit o n s) f)
  unfolding then_with
  gets Q o a n s f e h = rw (or_exit-some o a n s e) h

  pub named_begins :
      (p : Port) (s : S)
      → failed p.sock ≡ false
      → MustBegin (λ _ t. ports t ≡ ports s) (named os p s)
  unfolding named
  named_begins p s is_open =
      After-call _ _ _ _
        (gets _ _ _ 3 _ _ (m.names s p.sock is_open).1 (is_begun _ _ _ _ (m.names_keep s p.sock)))
