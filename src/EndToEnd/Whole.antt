-- ===== src/EndToEnd/Whole.antt =====
-- From the file on one side to the file on the other.
use reliable_udp.Base.{
  take-all, List, [], ap, arith, inl, inr, length, subst, suc, take, ℕ, ◌++◌, ◌∙◌, ◌∷◌, ◌≡◌, ◌≢◌,
  ◌⊎◌,
}
use reliable_udp.Client.{
  Client, ClientEvent, ClientOutput, client_run, start_client, to_ftpc, to_timer, to_troll,
}
use reliable_udp.Client.Invariant.{start_client-Holds}
use reliable_udp.Client.Sent.{AllSent, InOrder, SendsOnly, client_run_sends}
use reliable_udp.Crc.{checksum_of}
use reliable_udp.EndToEnd.Numbers.{transfer-fin}
use reliable_udp.EndToEnd.Writing.{transfer_written}
use reliable_udp.FtpClient.{header_packet}
use reliable_udp.FtpClient.Transfer.{transfer}
use reliable_udp.FtpServer.{ftp_server_run, start_ftp_server}
use reliable_udp.Outcome.{Outcome, exited, fault, running}
use reliable_udp.Packet.{Packet, PacketData}
use reliable_udp.Rto.{Timeval}
use reliable_udp.Server.{ServerOutput, server_run, start_server}
use reliable_udp.Server.Delivery.{IsFaithful, ftps_data}
use reliable_udp.Server.Invariant.{IsGenuine}
use reliable_udp.Server.Run.{AllTrusted, server_run_in_order}

-- A packet for the troll is among what the sending daemon sent.
abbrev pub IsAmong : PacketData → List ClientOutput → Type 0
IsAmong d [] = ⊥
IsAmong d (to_troll p ∷ os) = (p.packetdata ≡ d) ⊎ IsAmong d os
IsAmong d (to_timer s t ∷ os) = IsAmong d os
IsAmong d (to_ftpc stop ∷ os) = IsAmong d os

-- What the network may do: every packet that arrives with a right checksum has the data of one that
-- was sent. It may have been repeated, delayed or overtaken, and any of the others may be lost.
abbrev pub Carried : List ClientOutput → List Packet → Type 0
Carried os [] = Unit
Carried os (p ∷ ps) =
    (checksum_of p.packetdata ≡ p.checksum → IsAmong p.packetdata os) × Carried os ps

among-IsGenuine :
    (all : List PacketData) (destaddr : ℕ) (d : PacketData) (os : List ClientOutput)
    → AllSent all destaddr os
    → IsAmong d os
    → IsGenuine all d
among-IsGenuine all destaddr d [] a m = absurd m
among-IsGenuine all destaddr d (to_troll p ∷ os) a (inl same) = subst (IsGenuine all) same a.0.1
among-IsGenuine all destaddr d (to_troll p ∷ os) a (inr later) =
    among-IsGenuine all destaddr d os a.1 later
among-IsGenuine all destaddr d (to_timer s t ∷ os) a m = among-IsGenuine all destaddr d os a m
among-IsGenuine all destaddr d (to_ftpc stop ∷ os) a m = among-IsGenuine all destaddr d os a m

Carried-AllTrusted :
    (all : List PacketData) (destaddr to_client : ℕ) (os : List ClientOutput) (ps : List Packet)
    → AllSent all destaddr os
    → Carried os ps
    → AllTrusted all to_client ps
Carried-AllTrusted all destaddr to_client os [] a c = tt
Carried-AllTrusted all destaddr to_client os (p ∷ ps) a (h, c) = (
  λ right. among-IsGenuine all destaddr p.packetdata os a (h right),
  Carried-AllTrusted all destaddr to_client os ps a c,
)

exact_prefix :
    (stack : PacketData) (name file : List ℕ) (n : ℕ)
    → length (transfer stack name file) ≡ suc n
    → take (suc n) (transfer stack name file) ≡ transfer stack name file
exact_prefix stack name file n e = take-all (suc n) (transfer stack name file) (omega arith)

-- The file server's copy, from what the receiving daemon passed on until it exited.
pub exit_writes :
    (stack : PacketData) (name file : List ℕ) (received : Packet) (os : List ServerOutput)
    → stack.fin ≢ 1
    → stack.bytes_in_packet ≡ 0
    → IsFaithful (transfer stack name file) 0 received (exited os)
    → ftp_server_run start_ftp_server (ftps_data os) ≡ exited file
exit_writes stack name file received os ne zero_bytes_set (n, d, ds, at, last, (le, ends), goes) =
    let whole : ds ≡ transfer stack name file =
      ends ∙ exact_prefix stack name file n (transfer-fin stack name file n d ne at last) in
    ap (ftp_server_run start_ftp_server) (goes ∙ ap (λ x. x ++ received.packetdata ∷ []) whole)
    ∙ transfer_written stack name file (received.packetdata ∷ []) ne (omega arith)
    ∙ ap (λ k. exited (take k (header_packet stack name file).contents ++ file)) zero_bytes_set

abbrev pub outputs : {S O : Type 0} → Outcome S O → List O
outputs (running s os) = os
outputs (exited os) = os
outputs fault = []

outputs-AllSent :
    (all : List PacketData) (destaddr : ℕ) (o : Outcome Client ClientOutput)
    → SendsOnly all destaddr o
    → AllSent all destaddr (outputs o)
outputs-AllSent all destaddr (running c os) a = a
outputs-AllSent all destaddr (exited os) a = a
outputs-AllSent all destaddr fault a = tt

-- The file client's packets reach the sending daemon in order, that daemon runs through any events,
-- the network carries its packets as badly as `Carried` allows, and the receiving daemon runs
-- through what arrives: if it exits, the file server has written exactly the file, provided that
-- the stack left no FIN flag and a zero length in the client's first packet.
pub whole_transfer :
    (stack : PacketData) (name file : List ℕ) (to_server to_client : ℕ) (unset : Timeval)
    (events : List (Timeval × ClientEvent)) (request received : Packet) (arrived : List Packet)
    (os : List ServerOutput)
    → stack.fin ≢ 1
    → stack.bytes_in_packet ≡ 0
    → InOrder (transfer stack name file) 0 events
    → Carried (outputs (client_run to_server (start_client unset) events)) arrived
    → server_run to_client (start_server request received) arrived ≡ exited os
    → ftp_server_run start_ftp_server (ftps_data os) ≡ exited file
whole_transfer stack name file to_server to_client unset events request received arrived os ne z
      ordered carried e =
    let all = transfer stack name file in
    let sent =
      client_run_sends all to_server 0 (start_client unset) events
        (start_client-Holds all to_server unset) ordered in
    let trusted =
      Carried-AllTrusted all to_server to_client
        (outputs (client_run to_server (start_client unset) events)) arrived
        (outputs-AllSent all to_server (client_run to_server (start_client unset) events) sent)
        carried in
    exit_writes stack name file received os ne z (
      subst (IsFaithful all 0 received) e
        (server_run_in_order all to_client request received arrived trusted))
