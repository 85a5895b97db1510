-- ===== src/System/Invariant.antt =====
-- What holds of the four programs and their queues after any moves.
use reliable_udp.Base.{
  Bool, List, Option, [], ap, ap₂, append-nil, append_assoc, arith, drop, get_elem?, inl, length,
  none, some, subst, suc, sym, take, take-all, ℕ, ◌++◌, ◌∙◌, ◌∷◌, ◌≡◌, ◌⊎◌,
}
use reliable_udp.Client.{Client, ClientOutput, to_ftpc, to_timer, to_troll}
use reliable_udp.Client.Invariant.{Holds}
use reliable_udp.Client.Sent.{AllSent, IsSound}
use reliable_udp.FtpClient.{FtpClient}
use reliable_udp.FtpClient.Transfer.{Completes, to_send}
use reliable_udp.FtpServer.{FtpServer, ftp_server_step}
use reliable_udp.Outcome.{Outcome, exited, fault, running}
use reliable_udp.Packet.{Packet, PacketData}
use reliable_udp.Server.{Server, ServerOutput}
use reliable_udp.Server.Delivery.{IsFaithful, ftps_data, progress}
use reliable_udp.Server.Invariant.{Buffered}
use reliable_udp.Server.Run.{AllTrusted}
use reliable_udp.System.{System, after_client, after_ftpc, after_ftps, after_server, for_troll}
use reliable_udp.System.Written.{Writes, Writes-exited, Writes-running}

-- The packets that the file client has still to send.
abbrev pub left : Option FtpClient → List PacketData
left none = []
left (some c) = to_send c

module _ (all : List PacketData) (to_server to_client : ℕ) (received : Packet) where
  -- The sending daemon has taken the first `n` packets, and the others are to come in order.
  abbrev pub Sends : Option Client → Option FtpClient → List PacketData → Type 0
  Sends none f ds = Unit
  Sends (some c) f ds = (n : ℕ) × Holds all to_server n c × (ds ++ left f ≡ drop n all)

  -- What has gone to the file server, all in all.
  abbrev pub Serves : Option Server → List PacketData → Type 0
  Serves none ds = ds ≡ all ++ received.packetdata ∷ []
  Serves (some s) ds =
      ((lap : Bool) × Buffered all lap s) × (s.received ≡ received) × (ds ≡ take (progress s) all)

  abbrev pub Passed : Option Server → List PacketData → FtpServer ⊎ List ℕ → Type 0
  Passed s ds w = (seen : List PacketData) × Serves s (seen ++ ds) × Writes w seen

  abbrev pub IsSafe : System → Type 0
  IsSafe y =
      Sends y.client y.ftpc y.handed
      × AllTrusted all to_client y.forward
      × Passed y.server y.passed y.ftps

  abbrev pub StaysSafe : Option System → Type 0
  StaysSafe none = Unit
  StaysSafe (some z) = IsSafe z

  pub AllTrusted-append :
      (ps qs : List Packet)
      → AllTrusted all to_client ps
      → AllTrusted all to_client qs
      → AllTrusted all to_client (ps ++ qs)
  AllTrusted-append [] qs a b = b
  AllTrusted-append (p ∷ ps) qs (t, a) b = (t, AllTrusted-append ps qs a b)

  for_troll-AllTrusted :
      (os : List ClientOutput) → AllSent all to_server os → AllTrusted all to_client (for_troll os)
  for_troll-AllTrusted [] a = tt
  for_troll-AllTrusted (to_troll p ∷ os) ((st, at), a) = (λ right. at, for_troll-AllTrusted os a)
  for_troll-AllTrusted (to_timer s t ∷ os) a = for_troll-AllTrusted os a
  for_troll-AllTrusted (to_ftpc stop ∷ os) a = for_troll-AllTrusted os a

  same_left :
      (c : Option Client) (f f' : Option FtpClient) (ds es : List PacketData)
      → ds ++ left f ≡ es ++ left f'
      → Sends c f ds
      → Sends c f' es
  same_left none f f' ds es e s = tt
  same_left (some c) f f' ds es e (n, v, rest) = (n, v, sym e ∙ rest)

  pub after_ftpc-StaysSafe :
      (y : System) (c : FtpClient) (o : Outcome FtpClient PacketData)
      → Completes (to_send c) o
      → Sends y.client (some c) y.handed
      → AllTrusted all to_client y.forward
      → Passed y.server y.passed y.ftps
      → StaysSafe (after_ftpc y o)
  after_ftpc-StaysSafe y c (running c' os) whole sends t p = (
    same_left y.client (some c) (some c') y.handed (y.handed ++ os)
        (sym (append_assoc y.handed os (to_send c') ∙ ap (λ x. y.handed ++ x) whole)) sends,
    t,
    p,
  )
  after_ftpc-StaysSafe y c (exited os) whole sends t p = (
    same_left y.client (some c) none y.handed (y.handed ++ os)
        (sym (append-nil (y.handed ++ os) ∙ ap (λ x. y.handed ++ x) whole)) sends,
    t,
    p,
  )
  after_ftpc-StaysSafe y c fault whole sends t p = tt

  pub after_client-StaysSafe :
      (y : System) (n : ℕ) (o : Outcome Client ClientOutput)
      → IsSound all to_server n o
      → y.handed ++ left y.ftpc ≡ drop n all
      → AllTrusted all to_client y.forward
      → Passed y.server y.passed y.ftps
      → StaysSafe (after_client y o)
  after_client-StaysSafe y n (running c os) (v, a) rest t p =
      ((n, v, rest), AllTrusted-append y.forward (for_troll os) t (for_troll-AllTrusted os a), p)
  after_client-StaysSafe y n (exited os) a rest t p =
      (tt, AllTrusted-append y.forward (for_troll os) t (for_troll-AllTrusted os a), p)
  after_client-StaysSafe y n fault a rest t p = tt

  pub after_server-StaysSafe :
      (ends : (i : ℕ) (d : PacketData) → get_elem? all i ≡ some d → d.fin ≡ 1 → length all ≡ suc i)
      (y : System) (m : ℕ) (o : Outcome Server ServerOutput) (seen : List PacketData)
      → IsFaithful all m received o
      → Sends y.client y.ftpc y.handed
      → AllTrusted all to_client y.forward
      → seen ++ y.passed ≡ take m all
      → Writes y.ftps seen
      → StaysSafe (after_server y o)
  after_server-StaysSafe ends y m (running s os) seen (b, r, (le, goes)) sends t e w = (
    sends,
    t,
    (
      seen,
      (
        b,
        r,
        sym (append_assoc seen y.passed (ftps_data os)) ∙ ap (λ x. x ++ ftps_data os) e ∙ goes,
      ),
      w,
    ),
  )
  after_server-StaysSafe ends y m (exited os) seen (n, d, ds, at, last, (le, goes), o) sends t e w =
      (
        sends,
        t,
        (
          seen,
          sym (append_assoc seen y.passed (ftps_data os))
              ∙ ap₂ (λ x z. x ++ z) e o
              ∙ sym (append_assoc (take m all) ds (received.packetdata ∷ []))
              ∙ ap (λ x. x ++ received.packetdata ∷ [])
                  (goes ∙ take-all (suc n) all (omega (arith, ends n d at last))),
          w,
        ),
      )
  after_server-StaysSafe ends y m fault seen f sends t e w = tt

  pub after_ftps-StaysSafe :
      (y : System) (s : FtpServer) (d : PacketData) (o : Outcome FtpServer ℕ)
      (seen : List PacketData)
      → ftp_server_step s d ≡ o
      → Sends y.client y.ftpc y.handed
      → AllTrusted all to_client y.forward
      → Serves y.server (seen ++ d ∷ y.passed)
      → Writes (inl s) seen
      → StaysSafe (after_ftps y o)
  after_ftps-StaysSafe y s d (running s' os) seen e sends t serves w = (
    sends,
    t,
    (
      seen ++ d ∷ [],
      subst (Serves y.server) (sym (append_assoc seen (d ∷ []) y.passed)) serves,
      Writes-running s s' os seen d w e,
    ),
  )
  after_ftps-StaysSafe y s d (exited bytes) seen e sends t serves w = (
    sends,
    t,
    (
      seen ++ d ∷ [],
      subst (Serves y.server) (sym (append_assoc seen (d ∷ []) y.passed)) serves,
      Writes-exited s bytes seen d w e,
    ),
  )
  after_ftps-StaysSafe y s d fault seen e sends t serves w = tt
