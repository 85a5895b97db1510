-- ===== src/System/Turns.antt =====
-- Every move keeps what holds of the programs and their queues.
use reliable_udp.Base.{
  Bool, drop-cons, Bool-cases, List, Option, [], arith, get_elem?, inl, inr, length, none, refl,
  some, some_inj, subst, suc, ℕ, ◌++◌, ◌+◌, ◌==◌, ◌∷◌, ◌≡◌, ◌⊎◌,
}
use reliable_udp.Client.{Client, client_step, on_local, on_request, on_timer}
use reliable_udp.Client.Sent.{on_local-IsSound, on_request-IsSound, on_timer-IsSound}
use reliable_udp.Crc.{checksum_of}
use reliable_udp.FtpClient.{FtpClient, ftp_client_step}
use reliable_udp.FtpClient.Transfer.{ftp_client_step-Completes}
use reliable_udp.FtpServer.{FtpServer, ftp_server_step}
use reliable_udp.Packet.{Packet, PacketData}
use reliable_udp.Rto.{Eighths, Timeval}
use reliable_udp.Timer.{PeerList, message, quiet, timer_step}
use reliable_udp.Server.{Server, server_step}
use reliable_udp.Server.Delivery.{IsFaithful, progress}
use reliable_udp.Server.Run.{AllTrusted, server_step-IsFaithful}
use reliable_udp.System.{
  Move, System, Trouble, expiry_turn, forward_turn, backward_turn, ftpc_turn, ftps_turn, hear_turn,
  hearing, network, server_turn, system_step, take_turn, lose, repeat, delay, damage, ftpc_reads,
  client_takes, client_hears, client_expires, timer_reads, timer_ticks, after_timer, read_turn,
  timer_port, server_takes, ftps_takes, forward_trouble, backward_trouble,
}
use reliable_udp.System.Invariant.{
  AllTrusted-append, IsSafe, Passed, Sends, StaysSafe, after_client-StaysSafe, after_ftpc-StaysSafe,
  after_ftps-StaysSafe, after_server-StaysSafe, left,
}

module _ (all : List PacketData)
    (numbered : (i : ℕ) (d : PacketData) → get_elem? all i ≡ some d → d.sequence_num ≡ i)
    (ends : (i : ℕ) (d : PacketData) → get_elem? all i ≡ some d → d.fin ≡ 1 → length all ≡ suc i)
    (to_server to_client : ℕ) (received : Packet) where
  network-AllTrusted :
      (t : Trouble) (ps qs : List Packet)
      → AllTrusted all to_client ps
      → network t ps ≡ some qs
      → AllTrusted all to_client qs
  unfolding network
  network-AllTrusted lose [] qs a e = absurd (cc)
  network-AllTrusted lose (p ∷ ps) qs (t, a) e = subst (AllTrusted all to_client) (some_inj e) a
  network-AllTrusted repeat [] qs a e = absurd (cc)
  network-AllTrusted repeat (p ∷ ps) qs (t, a) e =
      subst (AllTrusted all to_client) (some_inj e) (t, (t, a))
  network-AllTrusted delay [] qs a e = absurd (cc)
  network-AllTrusted delay (p ∷ ps) qs (t, a) e =
      subst (AllTrusted all to_client) (some_inj e)
        (AllTrusted-append all to_server to_client received ps (p ∷ []) a (t, tt))
  network-AllTrusted (damage q) [] qs a e = absurd (cc)
  network-AllTrusted (damage q) (p ∷ ps) qs (t, a) e =
      elim (Bool-cases (checksum_of q.packetdata == q.checksum)) [
        | inl right ↦ absurd (ground arith)
        | inr wrong ↦
            let here : q ∷ ps ≡ qs = some_inj (rw wrong at e) in
            subst (AllTrusted all to_client) here ((λ right. absurd (ground arith)), a)
      ]

  ftpc_turn-StaysSafe :
      (y : System) (f : Option FtpClient) (signals : List ℕ)
      → Sends all to_server to_client received y.client f y.handed
      → AllTrusted all to_client y.forward
      → Passed all to_server to_client received y.server y.passed y.ftps
      → StaysSafe all to_server to_client received (ftpc_turn y f signals)
  unfolding ftpc_turn
  ftpc_turn-StaysSafe y none signals s t p = tt
  ftpc_turn-StaysSafe y (some c) [] s t p = tt
  ftpc_turn-StaysSafe y (some c) (stop ∷ rest) s t p =
      after_ftpc-StaysSafe all to_server to_client received (record y { signals = rest }) c
        (ftp_client_step c stop) (ftp_client_step-Completes c stop) s t p

  take_turn-StaysSafe :
      (y : System) (now : Timeval) (c : Option Client) (ds : List PacketData)
      → Sends all to_server to_client received c y.ftpc ds
      → AllTrusted all to_client y.forward
      → Passed all to_server to_client received y.server y.passed y.ftps
      → StaysSafe all to_server to_client received (take_turn to_server to_client y now c ds)
  unfolding take_turn client_step
  take_turn-StaysSafe y now none ds s t p = tt
  take_turn-StaysSafe y now (some c) [] s t p = tt
  take_turn-StaysSafe y now (some c) (d ∷ ds) (n, v, rest) t p =
      let (at, more) = drop-cons all (ds ++ left y.ftpc) n d rest in
      after_client-StaysSafe all to_server to_client received (record y { handed = ds }) (n + 1)
        (on_local to_server c now d)
        (on_local-IsSound all to_server n c now d v at (numbered n d at)) more t p

  hear_turn-StaysSafe :
      (y : System) (now : Timeval) (c : Option Client)
      (heard : Option (Packet × Packet × List Packet))
      → Sends all to_server to_client received c y.ftpc y.handed
      → AllTrusted all to_client y.forward
      → Passed all to_server to_client received y.server y.passed y.ftps
      → StaysSafe all to_server to_client received (hear_turn to_server to_client y now c heard)
  unfolding hear_turn client_step
  hear_turn-StaysSafe y now none heard s t p = tt
  hear_turn-StaysSafe y now (some c) none s t p = tt
  hear_turn-StaysSafe y now (some c) (some (q, second, rest)) (n, v, more) t p =
      after_client-StaysSafe all to_server to_client received (record y { backward = rest }) n
        (on_request c now q second) (on_request-IsSound all to_server n c now q second v) more t p

  expiry_turn-StaysSafe :
      (y : System) (now : Timeval) (c : Option Client) (ids : List ℕ)
      → Sends all to_server to_client received c y.ftpc y.handed
      → AllTrusted all to_client y.forward
      → Passed all to_server to_client received y.server y.passed y.ftps
      → StaysSafe all to_server to_client received (expiry_turn to_server to_client y now c ids)
  unfolding expiry_turn client_step
  expiry_turn-StaysSafe y now none ids s t p = tt
  expiry_turn-StaysSafe y now (some c) [] s t p = tt
  expiry_turn-StaysSafe y now (some c) (k ∷ ids) (n, v, more) t p =
      after_client-StaysSafe all to_server to_client received (record y { expired = ids }) n
        (on_timer c now k) (on_timer-IsSound all to_server n c now k v) more t p

  after_timer-StaysSafe :
      (y : System) (o : Option (List ℕ × PeerList))
      → IsSafe all to_server to_client received y
      → StaysSafe all to_server to_client received (after_timer y o)
  after_timer-StaysSafe y none v = tt
  after_timer-StaysSafe y (some (ids, l)) v = v

  read_turn-StaysSafe :
      (y : System) (memory : Bool) (ms : List (ℕ × Eighths))
      → IsSafe all to_server to_client received y
      → StaysSafe all to_server to_client received (read_turn y memory ms)
  unfolding read_turn
  read_turn-StaysSafe y memory [] v = tt
  read_turn-StaysSafe y memory ((n, t) ∷ rest) v =
      after_timer-StaysSafe (record y { started = rest })
        (timer_step y.timer (message memory n timer_port t)) v

  server_turn-StaysSafe :
      (y : System) (s : Option Server) (ps : List Packet)
      → Sends all to_server to_client received y.client y.ftpc y.handed
      → AllTrusted all to_client ps
      → Passed all to_server to_client received s y.passed y.ftps
      → StaysSafe all to_server to_client received (server_turn to_server to_client y s ps)
  unfolding server_turn
  server_turn-StaysSafe y none ps s t p = tt
  server_turn-StaysSafe y (some v) [] s t p = tt
  server_turn-StaysSafe y (some v) (q ∷ ps) s (trusted, t) (seen, ((lap, b), r, e), w) =
      after_server-StaysSafe all to_server to_client received ends (record y { forward = ps })
        (progress v) (server_step to_client v q) seen
        (subst (λ x. IsFaithful all (progress v) x (server_step to_client v q)) r
          (server_step-IsFaithful all to_client lap v q b trusted))
        s t e w

  ftps_turn-StaysSafe :
      (y : System) (w : FtpServer ⊎ List ℕ) (ds : List PacketData)
      → Sends all to_server to_client received y.client y.ftpc y.handed
      → AllTrusted all to_client y.forward
      → Passed all to_server to_client received y.server ds w
      → StaysSafe all to_server to_client received (ftps_turn y w ds)
  unfolding ftps_turn
  ftps_turn-StaysSafe y (inr bytes) ds s t p = tt
  ftps_turn-StaysSafe y (inl f) [] s t p = tt
  ftps_turn-StaysSafe y (inl f) (d ∷ ds) s t (seen, serves, w) =
      after_ftps-StaysSafe all to_server to_client received (record y { passed = ds }) f d
        (ftp_server_step f d) seen refl s t serves w

  forward_turn-StaysSafe :
      (y : System) (t : Trouble) (ps : Option (List Packet))
      → IsSafe all to_server to_client received y
      → network t y.forward ≡ ps
      → StaysSafe all to_server to_client received (forward_turn y ps)
  unfolding forward_turn
  forward_turn-StaysSafe y t none v e = tt
  forward_turn-StaysSafe y t (some qs) (s, a, p) e = (s, network-AllTrusted t y.forward qs a e, p)

  backward_turn-StaysSafe :
      (y : System) (ps : Option (List Packet))
      → IsSafe all to_server to_client received y
      → StaysSafe all to_server to_client received (backward_turn y ps)
  unfolding backward_turn
  backward_turn-StaysSafe y none v = tt
  backward_turn-StaysSafe y (some qs) v = v

  pub system_step-StaysSafe :
      (y : System) (m : Move)
      → IsSafe all to_server to_client received y
      → StaysSafe all to_server to_client received (system_step to_server to_client y m)
  unfolding system_step
  system_step-StaysSafe y ftpc_reads (s, t, p) = ftpc_turn-StaysSafe y y.ftpc y.signals s t p
  system_step-StaysSafe y (client_takes now) (s, t, p) =
      take_turn-StaysSafe y now y.client y.handed s t p
  system_step-StaysSafe y (client_hears now) (s, t, p) =
      hear_turn-StaysSafe y now y.client (hearing y.backward) s t p
  system_step-StaysSafe y (client_expires now) (s, t, p) =
      expiry_turn-StaysSafe y now y.client y.expired s t p
  system_step-StaysSafe y (timer_reads memory) v = read_turn-StaysSafe y memory y.started v
  system_step-StaysSafe y timer_ticks v = after_timer-StaysSafe y (timer_step y.timer quiet) v
  system_step-StaysSafe y server_takes (s, t, p) = server_turn-StaysSafe y y.server y.forward s t p
  system_step-StaysSafe y ftps_takes (s, t, p) = ftps_turn-StaysSafe y y.ftps y.passed s t p
  system_step-StaysSafe y (forward_trouble t) v =
      forward_turn-StaysSafe y t (network t y.forward) v refl
  system_step-StaysSafe y (backward_trouble t) v =
      backward_turn-StaysSafe y (network t y.backward) v
