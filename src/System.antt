-- ===== src/System.antt =====
-- The five programs side by side: each has a queue of what the others have sent to it, and a move
-- is one round of one of them, or something that the network does to the packets between the
-- daemons. What a program does in a round is its own function, with the queues in between.
use reliable_udp.Base.{
  Bool, List, Option, [], if◌then◌else◌, inl, inr, none, some, ℕ, ◌&&◌, ◌++◌, ◌==◌, ◌∷◌, ◌⊎◌,
}
pub mod Written
pub mod Invariant
pub mod Turns
pub mod Safety
pub mod Calm
pub mod Lost
pub mod Hearing
pub mod Exchange
pub mod Chunks
pub mod Finish
mod Tests
use mathlib.Core.Option
use reliable_udp.Client.{
  Client, ClientOutput, client_step, from_ftpc, from_timer, from_troll, start_client, to_ftpc,
  to_timer, to_troll,
}
use reliable_udp.Crc.{checksum_of}
use reliable_udp.FtpClient.{FtpClient, ftp_client_step, header_packet, start_ftp_client}
use reliable_udp.FtpServer.{FtpServer, ftp_server_step, start_ftp_server}
use reliable_udp.Outcome.{Outcome, exited, fault, running}
use reliable_udp.Packet.{Packet, PacketData}
use reliable_udp.Rto.{Eighths, Timeval}
use reliable_udp.Timer.{PeerList, message, quiet, timer_step}
use reliable_udp.Server.{
  Server, ServerOutput, server_step, start_server, to_daemon, to_ftps, to_log,
}
use reliable_udp.Server.Delivery.{ftps_data}

-- `none` is a program that has exited. The file server leaves the file that it has closed.
pub record System : Type 0 where
  pub ftpc : Option FtpClient
  pub signals : List ℕ
  pub handed : List PacketData
  pub client : Option Client
  pub forward : List Packet
  pub server : Option Server
  pub backward : List Packet
  pub passed : List PacketData
  pub ftps : FtpServer ⊎ List ℕ
  -- The messages for the timer process, its list, and the numbers that it has reported.
  pub started : List (ℕ × Eighths)
  pub timer : PeerList
  pub expired : List ℕ

-- What the network may do to the packet that would arrive next.
pub data Trouble : Type 0 where
  lose : Trouble
  repeat : Trouble
  delay : Trouble
  damage : Packet → Trouble

pub data Move : Type 0 where
  ftpc_reads : Move
  client_takes : Timeval → Move
  client_hears : Timeval → Move
  -- The daemon takes a number that the timer process has reported.
  client_expires : Timeval → Move
  -- A message is read, with the outcome of `malloc`.
  timer_reads : Bool → Move
  timer_ticks : Move
  server_takes : Move
  ftps_takes : Move
  forward_trouble : Trouble → Move
  backward_trouble : Trouble → Move

-- The sending daemon's outputs, by receiver.
abbrev pub controls : List ClientOutput → List ℕ
controls [] = []
controls (to_troll p ∷ os) = controls os
controls (to_timer s t ∷ os) = controls os
controls (to_ftpc stop ∷ os) = stop ∷ controls os

abbrev pub for_troll : List ClientOutput → List Packet
for_troll [] = []
for_troll (to_troll p ∷ os) = p ∷ for_troll os
for_troll (to_timer s t ∷ os) = for_troll os
for_troll (to_ftpc stop ∷ os) = for_troll os

abbrev pub for_timer : List ClientOutput → List (ℕ × Eighths)
for_timer [] = []
for_timer (to_troll p ∷ os) = for_timer os
for_timer (to_timer s t ∷ os) = (s, t) ∷ for_timer os
for_timer (to_ftpc stop ∷ os) = for_timer os

abbrev pub replies : List ServerOutput → List Packet
replies [] = []
replies (to_ftps p ∷ os) = replies os
replies (to_log bytes ∷ os) = replies os
replies (to_daemon p ∷ os) = p ∷ replies os

abbrev pub after_ftpc : System → Outcome FtpClient PacketData → Option System
after_ftpc y (running c os) = some (record y { ftpc = some c; handed = y.handed ++ os })
after_ftpc y (exited os) = some (record y { ftpc = none; handed = y.handed ++ os })
after_ftpc y fault = none

abbrev pub after_client : System → Outcome Client ClientOutput → Option System
after_client y (running c os) = some (record y {
  client = some c;
  signals = y.signals ++ controls os;
  forward = y.forward ++ for_troll os;
  started = y.started ++ for_timer os;
})
after_client y (exited os) = some (record y {
  client = none;
  signals = y.signals ++ controls os;
  forward = y.forward ++ for_troll os;
  started = y.started ++ for_timer os;
})
after_client y fault = none

abbrev pub after_server : System → Outcome Server ServerOutput → Option System
after_server y (running s os) = some (record y {
  server = some s;
  passed = y.passed ++ ftps_data os;
  backward = y.backward ++ replies os;
})
after_server y (exited os) = some (record y {
  server = none;
  passed = y.passed ++ ftps_data os;
  backward = y.backward ++ replies os;
})
after_server y fault = none

abbrev pub after_timer : System → Option (List ℕ × PeerList) → Option System
after_timer y none = none
after_timer y (some (ids, l)) = some (record y { timer = l; expired = y.expired ++ ids })

abbrev pub after_ftps : System → Outcome FtpServer ℕ → Option System
after_ftps y (running s os) = some (record y { ftps = inl s })
after_ftps y (exited bytes) = some (record y { ftps = inr bytes })
after_ftps y fault = none

-- After a FINACK the sending daemon reads a second packet, and waits for it.
unfoldable pub reads_two : Packet → Bool
reads_two p = checksum_of p.packetdata == p.checksum && p.packetdata.finack == 1

unfoldable pub hearing : List Packet → Option (Packet × Packet × List Packet)
hearing [] = none
hearing (p ∷ []) = if reads_two p then none else some (p, p, [])
hearing (p ∷ q ∷ ps) = if reads_two p then some (p, q, ps) else some (p, p, q ∷ ps)

-- A damaged packet has a wrong checksum.
unfoldable pub network : Trouble → List Packet → Option (List Packet)
network lose [] = none
network lose (p ∷ ps) = some ps
network repeat [] = none
network repeat (p ∷ ps) = some (p ∷ p ∷ ps)
network delay [] = none
network delay (p ∷ ps) = some (ps ++ p ∷ [])
network (damage q) [] = none
network (damage q) (p ∷ ps) = if checksum_of q.packetdata == q.checksum then none else some (q ∷ ps)

unfoldable pub ftpc_turn : System → Option FtpClient → List ℕ → Option System
ftpc_turn y none signals = none
ftpc_turn y (some c) [] = none
ftpc_turn y (some c) (stop ∷ rest) =
    after_ftpc (record y { signals = rest }) (ftp_client_step c stop)

unfoldable pub ftps_turn : System → FtpServer ⊎ List ℕ → List PacketData → Option System
ftps_turn y (inr bytes) ds = none
ftps_turn y (inl s) [] = none
ftps_turn y (inl s) (d ∷ ds) = after_ftps (record y { passed = ds }) (ftp_server_step s d)

-- timerportsend, which the timer process does not look at.
abbrev pub timer_port : ℕ
timer_port = 21000

unfoldable pub read_turn : System → Bool → List (ℕ × Eighths) → Option System
read_turn y memory [] = none
read_turn y memory ((s, t) ∷ rest) =
    after_timer (record y { started = rest }) (timer_step y.timer (message memory s timer_port t))

unfoldable pub forward_turn : System → Option (List Packet) → Option System
forward_turn y none = none
forward_turn y (some ps) = some (record y { forward = ps })

unfoldable pub backward_turn : System → Option (List Packet) → Option System
backward_turn y none = none
backward_turn y (some ps) = some (record y { backward = ps })

module _ (to_server to_client : ℕ) where
  unfoldable pub take_turn : System → Timeval → Option Client → List PacketData → Option System
  take_turn y now none ds = none
  take_turn y now (some c) [] = none
  take_turn y now (some c) (d ∷ ds) =
      after_client (record y { handed = ds }) (client_step to_server c now (from_ftpc d))

  unfoldable pub hear_turn :
      System → Timeval → Option Client → Option (Packet × Packet × List Packet) → Option System
  hear_turn y now none heard = none
  hear_turn y now (some c) none = none
  hear_turn y now (some c) (some (p, second, rest)) =
      after_client (record y { backward = rest })
        (client_step to_server c now (from_troll p second))

  unfoldable pub expiry_turn : System → Timeval → Option Client → List ℕ → Option System
  expiry_turn y now none ids = none
  expiry_turn y now (some c) [] = none
  expiry_turn y now (some c) (s ∷ ids) =
      after_client (record y { expired = ids }) (client_step to_server c now (from_timer s))

  unfoldable pub server_turn : System → Option Server → List Packet → Option System
  server_turn y none ps = none
  server_turn y (some s) [] = none
  server_turn y (some s) (p ∷ ps) =
      after_server (record y { forward = ps }) (server_step to_client s p)

  -- `none`: the program has exited or nothing has come for it, or C leaves the round undefined.
  unfoldable pub system_step : System → Move → Option System
  system_step y ftpc_reads = ftpc_turn y y.ftpc y.signals
  system_step y (client_takes now) = take_turn y now y.client y.handed
  system_step y (client_hears now) = hear_turn y now y.client (hearing y.backward)
  system_step y (client_expires now) = expiry_turn y now y.client y.expired
  system_step y (timer_reads memory) = read_turn y memory y.started
  system_step y timer_ticks = after_timer y (timer_step y.timer quiet)
  system_step y server_takes = server_turn y y.server y.forward
  system_step y ftps_takes = ftps_turn y y.ftps y.passed
  system_step y (forward_trouble t) = forward_turn y (network t y.forward)
  system_step y (backward_trouble t) = backward_turn y (network t y.backward)

  unfoldable pub system_run : System → List Move → Option System
  system_run y [] = some y
  system_run y (m ∷ ms) = Option.bind (system_step y m) (λ z. system_run z ms)

-- The file client has sent its first packet.
unfoldable pub start_system : PacketData → List ℕ → List ℕ → Timeval → Packet → Packet → System
start_system stack name file unset request received = record {
  ftpc = some (start_ftp_client stack name file);
  signals = [];
  handed = header_packet stack name file ∷ [];
  client = some (start_client unset);
  forward = [];
  server = some (start_server request received);
  backward = [];
  passed = [];
  ftps = inl start_ftp_server;
  started = [];
  timer = record { num_peers = 0; peers = [] };
  expired = [];
}
