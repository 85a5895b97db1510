-- ===== src/Startup/Open.antt =====
-- Which sockets a daemon has when it comes to its loop, whatever the system answers.
use reliable_udp.Base.{Bool-cases, arith, List, false, inl, inr, subst, true, ℕ, ℤ, ◌≡◌}
use reliable_udp.Startup.{Address, Os, begun, failed}
use reliable_udp.Startup.Programs.{
  ClientPorts, Port, bound, client_start, local_port, named, recv_timer_port, request_port, sender,
}
use reliable_udp.Startup.Rules.{After, IfBegun, After-call, if_any, if_has, if_passes, is_begun}

abbrev pub IsOpen : Port → Type 0
IsOpen p = failed p.sock ≡ false

abbrev pub AreOpen : ClientPorts → Type 0
AreOpen c =
    IsOpen c.troll × IsOpen c.control × IsOpen c.local × IsOpen c.recv_timer × IsOpen c.request

-- `bind` fails on what is no descriptor.
abbrev pub RefusesBad : {S : Type 0} → Os S → Type 0
RefusesBad {S} os =
    (s : S) (d : ℤ) (a : Address) → failed d ≡ true → failed ((os.bind s d a).0) ≡ true

module _ {S : Type 0} (os : Os S) where
  sender-IsOpen : (n : ℕ) (s : S) → IfBegun (λ p _. IsOpen p) (sender os n s)
  unfolding sender
  sender-IsOpen n s =
      After-call _ _ _ _ (if_passes _ _ 2 _ _ λ e. if_any _ _ _ λ h t. is_begun _ _ _ _ e)

  recv_timer_port-IsOpen : (t : ℤ) (s : S) → IfBegun (λ p _. IsOpen (p.0)) (recv_timer_port os t s)
  unfolding recv_timer_port
  recv_timer_port-IsOpen t s = After-call _ _ _ _ (
      if_passes _ _ 2 _ _
        λ _. if_any _ _ _ λ h u. if_passes _ _ 1 _ _ λ e. After-call _ _ _ _ (is_begun _ _ _ _ e))

  module _ (refuses : RefusesBad os) where
    opened : (d : ℤ) (a : Address) (s : S) → failed ((os.bind s d a).0) ≡ false → failed d ≡ false
    opened d a s e = elim (Bool-cases (failed d)) [
      | inl h ↦ ground (arith, refuses s d a h)
      | inr h ↦ h
    ]

    bound-IsOpen : (d : ℤ) (a : Address) (s : S) → IfBegun (λ p _. IsOpen p) (bound os d a s)
    unfolding bound
    bound-IsOpen d a s =
        After-call _ _ _ _ (if_passes _ _ 2 _ _ λ e. is_begun _ _ _ _ (opened d a s e))

    local_port-IsOpen : (s : S) → IfBegun (λ p _. IsOpen p) (local_port os s)
    unfolding local_port
    local_port-IsOpen s = if_any _ _ _ λ p t. bound-IsOpen p.sock p.name t

    request_port-IsOpen : (d : ℤ) (s : S) → IfBegun (λ p _. IsOpen p) (request_port os d s)
    unfolding request_port named
    request_port-IsOpen d s = After-call _ _ _ _ (
        if_passes _ _ 2 _ _ λ _.
          if_has _ _ _ _ (bound-IsOpen _ _ _)
            λ p t e. After-call _ _ _ _ (if_any _ _ _ λ a u. is_begun _ _ _ _ e))

    client_start-AreOpen :
        (remote : List ℕ) (s : S) → IfBegun (λ c _. AreOpen c) (client_start os remote s)
    unfolding client_start
    client_start-AreOpen remote s = if_has _ _ _ _ (sender-IsOpen _ _) λ t s1 ht.
        if_has _ _ _ _ (sender-IsOpen _ _) λ c s2 hc.
          if_has _ _ _ _ (local_port-IsOpen _) λ l s3 hl.
            if_has _ _ _ _ (recv_timer_port-IsOpen _ _) λ r s4 hr. if_any _ _ _ λ m s5.
              if_any _ _ _ λ h s6.
                if_has _ _ _ _ (request_port-IsOpen _ _)
                  λ q s7 hq. is_begun _ _ _ _ (ht, hc, hl, hr, hq)

    -- Whatever the system answers, as long as it binds no failed descriptor: where the sending
    -- daemon comes to its loop, each socket that it sends or receives with is open, the one for
    -- the timer's messages aside, although two of the tests look at another socket.
    pub client_start_open :
        (remote : List ℕ) (s : S) (c : ClientPorts) (t : S)
        → client_start os remote s ≡ begun c t
        → AreOpen c
    unfolding After
    client_start_open remote s c t e =
        subst (IfBegun (λ c _. AreOpen c)) e (client_start-AreOpen remote s)
