-- ===== src/Server/LongRun.antt =====
-- The receiving daemon's array of 1000 marks, and a transfer of more packets.
use reliable_udp.Base.{List, [], ℕ, ◌+◌, ◌<◌, ◌∷◌, ◌≡◌, ◌≢◌, ◌⊎◌, inl, inr, refl}
use reliable_udp.Outcome.{fault, then_on, sends_first}
use reliable_udp.Packet.{Packet}
use reliable_udp.Server.{Server, server_run, start_server}
use reliable_udp.Server.Lossless.{
  IsIdle, IsNext, goes_on, goes_on-IsIdle, next_goes, past_marks, start_server-IsIdle,
}

-- Packets from number `n` on, in order and without a FIN flag, up to number 1000.
abbrev pub ToMarksEnd : ℕ → List Packet → Type 0
ToMarksEnd n [] = ⊥
ToMarksEnd n (p ∷ ps) =
    IsNext n p × ((n ≡ 1000) ⊎ ((n < 1000) × (p.packetdata.fin ≢ 1) × ToMarksEnd (n + 1) ps))

run_from-faults :
    (destaddr n : ℕ) (ps : List Packet) (s : Server)
    → IsIdle n s
    → ToMarksEnd n ps
    → server_run destaddr s ps ≡ fault
unfolding server_run then_on sends_first
run_from-faults destaddr n [] s v long = absurd long
run_from-faults destaddr n (p ∷ ps) s v (next, inl last) =
    rw (past_marks destaddr n s p v next last) refl
run_from-faults destaddr n (p ∷ ps) s v (next, inr (small, more, long)) =
    rw
      (
        next_goes destaddr n s p v next small more,
        run_from-faults destaddr (n + 1) ps (goes_on destaddr n s p v next)
            (goes_on-IsIdle destaddr n s p v next) long,
      )
      refl

pub server_run_faults :
    (destaddr : ℕ) (request received : Packet) (ps : List Packet)
    → ToMarksEnd 0 ps
    → server_run destaddr (start_server request received) ps ≡ fault
server_run_faults destaddr request received ps long =
    run_from-faults destaddr 0 ps (start_server request received)
      (start_server-IsIdle request received) long
