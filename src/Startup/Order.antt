-- ===== src/Startup/Order.antt =====
-- The start-ups on a machine that grants what it can: which programs come to their loops depends on
-- the ports that are taken when they begin.
use reliable_udp.Base.{
  Bool-cases, List, false, inl, inr, ==_refl, refl, true, ℕ, ℤ, ◌==◌, ◌∙◌, ◌≡◌, ◌∷◌, ap, ap₂,
}
use reliable_udp.Startup.{Os, begun, ended, failed}
use reliable_udp.Startup.Machine.{
  IsMachine, taken, joined, passes, found_here, found_remote, sender_begins, bound_begins,
  named_begins,
}
use reliable_udp.Startup.Programs.{
  ClientPorts, Port, bound, client_start, local_port, recv_timer_port, request_port,
  send_timer_port, timer_start,
}
use reliable_udp.Startup.Rules.{
  After-then, After-weaken, MustBegin, MustBegin-begun, After-call, is_begun, goes_call, ends_here,
  goes_past,
}

taken-joined : (p q : ℕ) (ps : List ℕ) → (q == p) ≡ false → taken q (joined p ps) ≡ taken q ps
taken-joined p q ps e = elim (Bool-cases (taken p ps)) [
  | inl h ↦ rw h refl
  | inr h ↦ rw (h, e) refl
]

taken_joined : (p : ℕ) (ps : List ℕ) → taken p (joined p ps) ≡ true
taken_joined p ps = elim (Bool-cases (taken p ps)) [
  | inl h ↦ rw (h, h) refl
  | inr h ↦ rw (h, ==_refl p) refl
]

module _ {S : Type 0} (os : Os S) (ports : S → List ℕ) (remote : List ℕ)
    (m : IsMachine os ports remote) where
  local_port_begins :
      (s : S)
      → taken 9005 (ports s) ≡ false
      → MustBegin (λ _ t. ports t ≡ 9005 ∷ ports s) (local_port os s)
  unfolding local_port
  local_port_begins s free =
      After-then _ _ _ _ _ (sender_begins os ports remote m 9005 s) λ p t (own, e, k).
        After-weaken _ _ _ _
          (bound_begins os ports remote m p.sock p.name t own.0 own.1 (rw (e, k) free))
          λ _ u h. h.1 ∙ ap₂ (λ q qs. q ∷ qs) e k

  recv_timer_port_begins :
      (d : ℤ) (s : S)
      → failed d ≡ false
      → MustBegin (λ _ t. ports t ≡ joined 20000 (ports s)) (recv_timer_port os d s)
  unfolding recv_timer_port
  recv_timer_port_begins d s is_open = After-call _ _ _ _ (
      passes os ports remote m _ _ 2 _ _ is_open (
        After-then _ _ _ _ _ (found_here os ports remote m _) λ h t e.
          passes os ports remote m _ _ 1 _ _ (m.opens s) (
            After-call _ _ _ _ (
              is_begun _ _ _ _ (
                (m.binds t _ _ (m.opens s) (inl refl)).1
                ∙ ap (joined 20000) (e.1 ∙ m.opens_keeps s))))))

  send_timer_port_begins :
      (s : S) → MustBegin (λ _ t. ports t ≡ joined 21000 (ports s)) (send_timer_port os s)
  unfolding send_timer_port
  send_timer_port_begins s = After-then _ _ _ _ _ (found_here os ports remote m _) λ h t e.
      After-call _ _ _ _ (
        After-call _ _ _ _ (
          is_begun _ _ _ _
            ((m.binds _ _ _ (m.opens t) (inr e.0)).1 ∙ ap (joined 21000) (m.opens_keeps t ∙ e.1))))

  request_port_begins :
      (d : ℤ) (s : S)
      → failed d ≡ false
      → taken 14000 (ports s) ≡ false
      → MustBegin (λ _ t. ports t ≡ 14000 ∷ ports s) (request_port os d s)
  unfolding request_port
  request_port_begins d s is_open free = After-call _ _ _ _ (
      passes os ports remote m _ _ 2 _ _ is_open (
        After-then _ _ _ _ _
          (bound_begins os ports remote m _ _ _ (m.opens s) (inl refl) (rw (m.opens_keeps s) free))
          λ p t e.
            After-weaken _ _ _ _ (named_begins os ports remote m p t (rw e.0 (m.opens s)))
              λ _ u h. h ∙ e.1 ∙ ap (λ qs. 14000 ∷ qs) (m.opens_keeps s)))

  client_start_begins :
      (s : S)
      → taken 9005 (ports s) ≡ false
      → taken 14000 (ports s) ≡ false
      → MustBegin
          (λ _ t. ports t ≡ 14000 ∷ joined 21000 (joined 20000 (9005 ∷ ports s)))
          (client_start os remote s)
  unfolding client_start
  client_start_begins s f g =
      After-then _ _ _ _ _ (sender_begins os ports remote m _ s) λ t s1 (ot, _, k1).
        After-then _ _ _ _ _ (sender_begins os ports remote m _ s1) λ c s2 (_, _, k2).
          After-then _ _ _ _ _ (local_port_begins s2 (rw (k2, k1) f)) λ l s3 k3.
            After-then _ _ _ _ _ (recv_timer_port_begins _ s3 ot.0) λ r s4 k4.
              After-then _ _ _ _ _ (send_timer_port_begins s4) λ d s5 k5.
                After-then _ _ _ _ _ (found_remote os ports remote m s5) λ h s6 k6.
                  let e =
                    k6
                    ∙ k5
                    ∙ ap (joined 21000)
                        (k4 ∙ ap (joined 20000) (k3 ∙ ap (λ qs. 9005 ∷ qs) (k2 ∙ k1))) in
                  After-then _ _ _ _ _
                    (request_port_begins _ s6 ot.0 (
                      rw e (
                        taken-joined 21000 14000 (joined 20000 (9005 ∷ ports s)) refl
                        ∙ taken-joined 20000 14000 (9005 ∷ ports s) refl
                        ∙ g)))
                    λ q s7 k7. is_begun _ _ _ _ (k7 ∙ ap (λ qs. 14000 ∷ qs) e)

  timer_start_begins :
      (s : S)
      → taken 21000 (ports s) ≡ false
      → MustBegin (λ _ t. ports t ≡ 21000 ∷ ports s) (timer_start os s)
  unfolding timer_start
  timer_start_begins s f = After-call _ _ _ _ (
      passes os ports remote m _ _ 2 _ _ refl (
        After-weaken _ _ _ _
          (bound_begins os ports remote m _ _ _ (m.opens s) (inl refl) (rw (m.opens_keeps s) f))
          λ _ t h. h.1 ∙ ap (λ qs. 21000 ∷ qs) (m.opens_keeps s)))

  timer_start_ends : (s : S) → taken 21000 (ports s) ≡ true → timer_start os s ≡ ended 2
  unfolding timer_start bound
  timer_start_ends s f = goes_call _ _ _ (
      goes_past _ _ 2 _ _ refl (
        goes_call _ _ _ (
          ends_here _ 2 _ _
            ((m.binds _ _ _ (m.opens s) (inl refl)).0 ∙ ap (taken 21000) (m.opens_keeps s) ∙ f))))

  -- On a machine that grants what it can, with the ports 9005, 14000 and 21000 free: if the sending
  -- daemon is started first it comes to its loop, and the timer process, started next, exits with
  -- status 2; if the timer process is started first, both come to their loops.
  pub start_order :
      (s : S)
      → taken 9005 (ports s) ≡ false
      → taken 14000 (ports s) ≡ false
      → taken 21000 (ports s) ≡ false
      → ((c : ClientPorts) × (t : S) × (client_start os remote s ≡ begun c t)
          × (timer_start os t ≡ ended 2))
        × ((p : Port) × (t : S) × (timer_start os s ≡ begun p t)
            × (c : ClientPorts) × (u : S) × (client_start os remote t ≡ begun c u))
  start_order s f g h = (
    let (c, t, e, k) = MustBegin-begun _ _ (client_start_begins s f g) in
        (c, t, e, timer_start_ends t (rw k (taken_joined 21000 (joined 20000 (9005 ∷ ports s))))),
    let (p, t, e, k) = MustBegin-begun _ _ (timer_start_begins s h) in
        let (c, u, e', _) = MustBegin-begun _ _ (client_start_begins t (rw k f) (rw k g)) in
        (p, t, e, c, u, e'),
  )
