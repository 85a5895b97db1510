-- ===== src/System/Safety.antt =====
-- Whatever moves are made, the file server writes the file and nothing else.
use mathlib.Core.Option
use reliable_udp.Base.{
  List, Option, [], ap, append-nil, append_assoc, arith, drop, get_elem?, length, none, refl, some,
  subst, suc, sym, take, take-append-drop, false, ◌≢◌, ℕ, ◌++◌, ◌∙◌, ◌∷◌, ◌≡◌,
}
use reliable_udp.Outcome.{exited}
use reliable_udp.Packet.{Packet, PacketData}
use reliable_udp.Rto.{Timeval}
use reliable_udp.Server.{Server}
use reliable_udp.Server.Delivery.{progress}
use reliable_udp.System.{Move, System, system_run, system_step}
use reliable_udp.System.Invariant.{IsSafe, Serves, StaysSafe}
use reliable_udp.System.Written.{IsRight, Writes-IsRight}
use reliable_udp.EndToEnd.Numbers.{transfer-fin, transfer-numbered}
use reliable_udp.EndToEnd.Writing.{transfer_written}
use reliable_udp.FtpServer.{ftp_server_run, start_ftp_server}
use reliable_udp.FtpClient.{header_packet, start_ftp_client}
use reliable_udp.Server.{start_server}
use reliable_udp.Server.Invariant.{start_server-Buffered}
use reliable_udp.Client.Invariant.{start_client-Holds}
use reliable_udp.FtpClient.Transfer.{transfer}
use reliable_udp.System.{start_system}
use reliable_udp.System.Turns.{system_step-StaysSafe}

module _ (all : List PacketData)
    (numbered : (i : ℕ) (d : PacketData) → get_elem? all i ≡ some d → d.sequence_num ≡ i)
    (ends : (i : ℕ) (d : PacketData) → get_elem? all i ≡ some d → d.fin ≡ 1 → length all ≡ suc i)
    (to_server to_client : ℕ) (received : Packet) where
  pub system_run-StaysSafe :
      (ms : List Move) (y : System)
      → IsSafe all to_server to_client received y
      → StaysSafe all to_server to_client received (system_run to_server to_client y ms)
  unfolding system_run Option.bind
  system_run-StaysSafe [] y v = v
  system_run-StaysSafe (m ∷ ms) y v =
      goes (system_step to_server to_client y m)
        (system_step-StaysSafe all numbered ends to_server to_client received y m v)
        (λ z. system_run-StaysSafe ms z)
    where
      goes :
          (o : Option System)
          → StaysSafe all to_server to_client received o
          → ((z : System)
              → IsSafe all to_server to_client received z
              → StaysSafe all to_server to_client received (system_run to_server to_client z ms))
          → StaysSafe all to_server to_client received
              (Option.bind o (λ z. system_run to_server to_client z ms))
      goes none s k = tt
      goes (some z) s k = k z s

-- How the queues of the file server can go on to the whole transfer.
Passed-goes_on :
    (all : List PacketData) (to_server to_client : ℕ) (received : Packet) (s : Option Server)
    (ds seen : List PacketData)
    → Serves all to_server to_client received s (seen ++ ds)
    → (more : List PacketData) × (rest : List PacketData) × (seen ++ more ≡ all ++ rest)
Passed-goes_on all to_server to_client received none ds seen e = (ds, received.packetdata ∷ [], e)
Passed-goes_on all to_server to_client received (some s) ds seen (b, r, e) = (
  ds ++ drop (progress s) all,
  [],
  sym (append_assoc seen ds (drop (progress s) all))
      ∙ ap (λ x. x ++ drop (progress s) all) e
      ∙ take-append-drop (progress s) all
      ∙ sym (append-nil all),
)

start_system-IsSafe :
    (stack : PacketData) (name file : List ℕ) (to_server to_client : ℕ) (unset : Timeval)
    (request received : Packet)
    → IsSafe
        (transfer stack name file)
        to_server
        to_client
        received
        (start_system stack name file unset request received)
unfolding start_system start_ftp_client transfer start_server ftp_server_run
start_system-IsSafe stack name file to_server to_client unset request received =
    let all = transfer stack name file in
    (
      (0, start_client-Holds all to_server unset, refl),
      tt,
      ([], ((false, start_server-Buffered all request received), refl, refl), refl),
    )

-- Whatever moves the programs make, in whatever order, and whatever the network does in between,
-- what the file server has written is always the beginning of the file, and the file that it closes
-- is the file, if the stack left no FIN flag and a zero length in the client's first packet.
pub system_run-IsRight :
    (stack : PacketData) (name file : List ℕ) (to_server to_client : ℕ) (unset : Timeval)
    (request received : Packet) (ms : List Move) (y : System)
    → stack.fin ≢ 1
    → stack.bytes_in_packet ≡ 0
    → system_run to_server to_client (start_system stack name file unset request received) ms
      ≡ some y
    → IsRight file y.ftps
system_run-IsRight stack name file to_server to_client unset request received ms y ne z e =
    let all = transfer stack name file in
    let (sends, t, (seen, serves, w)) = subst (StaysSafe all to_server to_client received) e (
      system_run-StaysSafe all (transfer-numbered stack name file)
        (λ i d. transfer-fin stack name file i d ne) to_server to_client received ms
        (start_system stack name file unset request received)
        (start_system-IsSafe stack name file to_server to_client unset request received)) in
    let (more, rest, whole) =
      Passed-goes_on all to_server to_client received y.server y.passed seen serves in
    Writes-IsRight y.ftps seen more file w (
      ap (ftp_server_run start_ftp_server) whole
      ∙ transfer_written stack name file rest ne (omega arith)
      ∙ ap (λ k. exited (take k (header_packet stack name file).contents ++ file)) z)
