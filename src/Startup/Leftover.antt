-- ===== src/Startup/Leftover.antt =====
-- The receiving daemon's start-up, which tests a descriptor before it is set.
use reliable_udp.Base.{Bool-cases, List, false, inl, inr, refl, true, ℕ, ℤ, ◌≡◌, ◌∷◌, ◌⊎◌}
use reliable_udp.Startup.{Os, any_host, begun, ended, failed}
use reliable_udp.Startup.Machine.{
  IsMachine, taken, passes, found_here, found_remote, bound_begins, named_begins,
}
use reliable_udp.Startup.Programs.{ServerPorts, bound, log_name, server_start}
use reliable_udp.Startup.Rules.{
  After-then, MustBegin, MustBegin-begun, After-call, is_begun, goes_call, goes_after, ends_here,
  goes_past,
}

module _ {S : Type 0} (os : Os S) (ports : S → List ℕ) (remote : List ℕ)
    (m : IsMachine os ports remote) where
  -- The daemon's first socket and its port, after its log is opened.
  log_bound :
      (s : S)
      → taken 12000 (ports s) ≡ false
      → (let u = (os.fopen s log_name).1 in
          let d = os.socket u in
          MustBegin
            (λ p t. (p.sock ≡ d.0) × (ports t ≡ 12000 ∷ ports (d.1)))
            (bound os (d.0) (record { host = any_host; port = 12000 }) (d.1)))
  log_bound s f =
      let u = (os.fopen s log_name).1 in
      bound_begins os ports remote m _ _ _ (m.opens u) (inl refl)
        (rw (m.opens_keeps u, m.files_keep s log_name) f)

  server_start_ends :
      (leftover : ℤ) (s : S)
      → taken 12000 (ports s) ≡ false
      → failed leftover ≡ true
      → server_start os leftover remote s ≡ ended 2
  unfolding server_start
  server_start_ends leftover s f e = goes_call _ _ _ (
      goes_call _ _ _ (
        goes_past _ _ 2 _ _ (m.opens _) (
          goes_after _ _ _ _ (log_bound s f) λ b t k.
            goes_after _ _ _ _ (named_begins os ports remote m b t (rw k.0 (m.opens _)))
              λ n u _. goes_call _ _ _ (ends_here _ 2 _ _ e))))

  server_start_begins :
      (leftover : ℤ) (s : S)
      → taken 12000 (ports s) ≡ false
      → failed leftover ≡ false
      → MustBegin (λ _ _. Unit {0}) (server_start os leftover remote s)
  unfolding server_start
  server_start_begins leftover s f e = After-call _ _ _ _ (
      After-call _ _ _ _ (
        passes os ports remote m _ _ 2 _ _ (m.opens _) (
          After-then _ _ _ _ _ (log_bound s f) λ b t k.
            After-then _ _ _ _ _ (named_begins os ports remote m b t (rw k.0 (m.opens _))) λ n u _.
              After-call _ _ _ _ (
                passes os ports remote m _ _ 2 _ _ e (
                  After-then _ _ _ _ _ (found_here os ports remote m _) λ h v _.
                    After-then _ _ _ _ _ (found_remote os ports remote m _) λ g w _.
                      After-call _ _ _ _ (
                        passes os ports remote m _ _ 2 _ _ (m.opens _) (
                          After-then _ _ _ _ _ (found_here os ports remote m _)
                            λ i x _. is_begun _ _ _ _ tt)))))))

  -- On such a machine, with port 12000 free: the receiving daemon comes to its loop unless what its
  -- stack left in `localsock` is negative, and then it exits with status 2, although no call has
  -- failed.
  pub server_start_leftover :
      (leftover : ℤ) (s : S)
      → taken 12000 (ports s) ≡ false
      → ((failed leftover ≡ true) × (server_start os leftover remote s ≡ ended 2))
        ⊎ ((failed leftover ≡ false)
            × ((c : ServerPorts) × (t : S) × (server_start os leftover remote s ≡ begun c t)))
  server_start_leftover leftover s f = elim (Bool-cases (failed leftover)) [
    | inl h ↦ inl (h, server_start_ends leftover s f h)
    | inr h ↦
        let (c, t, k, _) = MustBegin-begun _ _ (server_start_begins leftover s f h) in
        inr (h, (c, t, k))
  ]
