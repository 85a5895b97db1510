-- ===== src/Server/Run.antt =====
-- The rounds of the receiving daemon, one after the other.
use reliable_udp.Base.{
  ==→eq, Bool, Bool-cases, List, [], ap, append_assoc, arith, false, get_elem?, get_elem?-set_self,
  inl, inr, seq_after, set, some, subst, subst₂, suc, sym, take, ℕ, ◌++◌, ◌==◌, ◌∙◌, ◌∷◌, ◌≡◌,
}
use reliable_udp.Crc.{checksum_of}
use reliable_udp.Outcome.{Outcome, exited, fault, running, sends_first, then_on}
use reliable_udp.Packet.{Packet, PacketData}
use reliable_udp.Server.{
  Server, ServerOutput, deliver, server_run, server_step, start_server, take_in,
}
use reliable_udp.Server.Delivery.{
  IsFaithful, Passes, deliver-IsFaithful, ftps_data, ftps_data-append, idle-IsFaithful, progress,
  sends_first-IsFaithful,
}
use reliable_udp.Server.Invariant.{
  Buffered, IsTrusted, receive-Buffered, start_server-Buffered, take_in-IsReady,
}

module _ (transfer : List PacketData) (destaddr : ℕ) where
  take_in-quiet : (s : Server) (p : Packet) → ftps_data (take_in destaddr s p).1 ≡ []
  unfolding take_in ftps_data
  take_in-quiet s p = ground arith

  take_in-keeps :
      (s : Server) (p : Packet)
      → ((take_in destaddr s p).0.last_sent ≡ s.last_sent)
        × ((take_in destaddr s p).0.received ≡ s.received)
  unfolding take_in
  take_in-keeps s p = ground arith

  pub server_step-IsFaithful :
      (lap : Bool) (s : Server) (p : Packet)
      → Buffered transfer lap s
      → IsTrusted transfer p
      → IsFaithful transfer (progress s) s.received (server_step destaddr s p)
  unfolding server_step
  server_step-IsFaithful lap s p v trusted =
      elim (Bool-cases (checksum_of p.packetdata == p.checksum)) [
        | inr garbled ↦ rw garbled (idle-IsFaithful transfer destaddr lap s₁ v₁)
        | inl right ↦
            let (lap', ready) =
              take_in-IsReady transfer destaddr lap s₁ p v₁ at
                (trusted (==→eq (checksum_of p.packetdata) p.checksum right)) in
            let (same_last, same_received) = take_in-keeps s₁ p in
            rw right (
              sends_first-IsFaithful transfer destaddr (progress s) s.received
                (take_in destaddr s₁ p).1 (deliver destaddr (take_in destaddr s₁ p).0)
                (take_in-quiet s₁ p)
                (subst₂
                  (λ l r.
                    IsFaithful transfer (seq_after l) r
                      (deliver destaddr (take_in destaddr s₁ p).0))
                  same_last same_received
                  (deliver-IsFaithful transfer destaddr lap' (take_in destaddr s₁ p).0 ready)))
      ]
    where
      s₁ : Server
      s₁ = record s { buffer = set s.buffer s.head p }

      v₁ : Buffered transfer lap s₁
      v₁ = receive-Buffered transfer lap s p v

      at : get_elem? s₁.buffer s₁.head ≡ some p
      at = get_elem?-set_self s.buffer s.head p (omega (arith, v.length_buffer, v.head_in))

  abbrev pub AllTrusted : List Packet → Type 0
  AllTrusted [] = Unit
  AllTrusted (p ∷ ps) = IsTrusted transfer p × AllTrusted ps

  -- Two stretches of rounds, one after the other.
  Passes-on :
      (m n k : ℕ) (ds es : List PacketData)
      → Passes transfer m n ds
      → Passes transfer n k es
      → Passes transfer m k (ds ++ es)
  Passes-on m n k ds es (le, e) (le', e') =
      (omega arith, sym (append_assoc (take m transfer) ds es) ∙ ap (λ x. x ++ es) e ∙ e')

  after-IsFaithful :
      (m n : ℕ) (received : Packet) (os : List ServerOutput) (o : Outcome Server ServerOutput)
      → Passes transfer m n (ftps_data os)
      → IsFaithful transfer n received o
      → IsFaithful transfer m received (sends_first os o)
  unfolding sends_first
  after-IsFaithful m n received os (running s ps) first (b, r, rest) = (
    b,
    r,
    rw (ftps_data-append os ps)
        (Passes-on m n (progress s) (ftps_data os) (ftps_data ps) first rest),
  )
  after-IsFaithful m n received os (exited ps) first (k, d, ds, at, is, rest, o) = (
    k,
    d,
    ftps_data os ++ ds,
    at,
    is,
    Passes-on m n (suc k) (ftps_data os) ds first rest,
    ftps_data-append os ps
        ∙ ap (λ x. ftps_data os ++ x) o
        ∙ sym (append_assoc (ftps_data os) ds (received.packetdata ∷ [])),
  )
  after-IsFaithful m n received os fault first rest = tt

  then_on-IsFaithful :
      (m : ℕ) (received : Packet) (o : Outcome Server ServerOutput)
      (next : Server → Outcome Server ServerOutput)
      → IsFaithful transfer m received o
      → ((s : Server) (lap : Bool)
          → Buffered transfer lap s
          → IsFaithful transfer (progress s) s.received (next s))
      → IsFaithful transfer m received (then_on o next)
  unfolding then_on
  then_on-IsFaithful m received (running s os) next ((lap, v), r, first) k =
      after-IsFaithful m (progress s) received os (next s) first
        (subst (λ x. IsFaithful transfer (progress s) x (next s)) r (k s lap v))
  then_on-IsFaithful m received (exited os) next f k = f
  then_on-IsFaithful m received fault next f k = tt

  run-IsFaithful :
      (ps : List Packet) (lap : Bool) (s : Server)
      → Buffered transfer lap s
      → AllTrusted ps
      → IsFaithful transfer (progress s) s.received (server_run destaddr s ps)
  unfolding server_run
  run-IsFaithful [] lap s v t = idle-IsFaithful transfer destaddr lap s v
  run-IsFaithful (p ∷ ps) lap s v (t, ts) =
      then_on-IsFaithful (progress s) s.received (server_step destaddr s p)
        (λ s'. server_run destaddr s' ps) (server_step-IsFaithful lap s p v t)
        (λ s' lap' v'. run-IsFaithful ps lap' s' v' ts)

  -- Whatever packets arrive, as long as the checksum shows every damage, the file server is passed
  -- the packets of the transfer in order and each once: as long as the daemon runs, the first of
  -- them up to the last that it acknowledged; when it exits, those up to one whose FIN flag is set,
  -- and after it the packet `received_packet` that was never filled in.
  pub server_run_in_order :
      (request received : Packet) (ps : List Packet)
      → AllTrusted ps
      → IsFaithful transfer 0 received (server_run destaddr (start_server request received) ps)
  unfolding start_server
  server_run_in_order request received ps t =
      run-IsFaithful ps false (start_server request received)
        (start_server-Buffered transfer request received) t
