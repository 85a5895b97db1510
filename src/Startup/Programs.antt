-- ===== src/Startup/Programs.antt =====
-- The five programs up to their loops: tcpdclient.c, tcpdserver.c, timer.c, ftpserver.c and
-- ftpclient.c, with SEND of packet.h. A descriptor that C reads before it is set is a parameter.
use reliable_udp.Base.{
  if◌then◌else◌, ltb, length, drop, ◌++◌, ◌+◌, List, [], Option, false, none, some, ◌∷◌, ℕ, ℤ,
}
use reliable_udp.FtpClient.{header_packet}
use reliable_udp.Packet.{PacketData}
use reliable_udp.Startup.{
  Action, Address, Os, any_host, exit_if, failed, local_name, or_exit, or_return, or_fault, pure,
  result, ◌>>=◌, ◌>>◌,
}

-- A socket and the address that it is bound to, or that the program sends to with it.
pub record Port : Type 0 where
  pub sock : ℤ
  pub name : Address

pub record ClientPorts : Type 0 where
  pub troll : Port
  pub control : Port
  pub local : Port
  pub recv_timer : Port
  pub send_timer : Port
  pub request : Port
  pub destaddr : Address

pub record ServerPorts : Type 0 where
  pub destinationfile : Option ℕ
  pub troll : Port
  pub request : Port
  pub local : Port
  pub destaddr : Address

pub record FtpsPort : Type 0 where
  pub local : Port
  pub pfile : Option ℕ

pub record FtpcPorts : Type 0 where
  pub local : Port
  pub control : Port
  pub sourcefile : ℕ
  pub sending : PacketData

-- "tcpd.txt".
abbrev pub log_name : List ℕ
log_name = 116 ∷ 99 ∷ 112 ∷ 100 ∷ 46 ∷ 116 ∷ 120 ∷ 116 ∷ []

-- Where SEND sends to.
abbrev pub daemon_address : Address
daemon_address = record { host = any_host; port = 9005 }

-- The one argument.
unfoldable pub only : List (List ℕ) → Option (List ℕ)
only [] = none
only (a ∷ []) = some a
only (a ∷ b ∷ rest) = none

-- `strcpy` of the argument and its terminator into the 20 bytes of `filename`.
unfoldable pub strcpy_20 : List ℕ → List ℕ → Option (List ℕ)
strcpy_20 file left =
    if ltb (length file) 20 then some (file ++ 0 ∷ drop (length file + 1) left) else none

module _ {S : Type 0} (os : Os S) where
  abbrev pub open_socket : Action S ℤ
  open_socket s = result (os.socket s)

  abbrev pub bind_to : ℤ → Address → Action S ℤ
  bind_to d a s = result (os.bind s d a)

  abbrev pub own_name : ℤ → Action S (Option Address)
  own_name d s = result (os.getsockname s d)

  abbrev pub look_up : List ℕ → Action S (Option ℕ)
  look_up n s = result (os.gethostbyname s n)

  abbrev pub open_file : List ℕ → Action S (Option ℕ)
  open_file n s = result (os.fopen s n)

  unfoldable pub host_of : List ℕ → Action S ℕ
  host_of n = do hp ← look_up n; or_exit hp 3

  -- A socket to send with to a port of this machine.
  unfoldable pub sender : ℕ → Action S Port
  sender p = do
    d ← open_socket
    exit_if (failed d) 2
    h ← host_of local_name
    pure (record { sock = d; name = record { host = h; port = p } })

  -- A socket bound to a port, or the program exits.
  unfoldable pub bound : ℤ → Address → Action S Port
  bound d a = do r ← bind_to d a; exit_if (failed r) 2; pure (record { sock = d; name = a })

  -- The address is the one that `getsockname` reports.
  unfoldable pub named : Port → Action S Port
  named p = do a ← own_name p.sock; b ← or_exit a 3; pure (record { sock = p.sock; name = b })

  unfoldable pub local_port : Action S Port
  local_port = do p ← sender 9005; bound p.sock p.name

  -- The test after this socket is one of `trollsock`, and what `bind` returns is not looked at.
  -- With it comes the troll's address, filled in once more.
  unfoldable pub recv_timer_port : ℤ → Action S (Port × Address)
  recv_timer_port trollsock = do
    d ← open_socket
    exit_if (failed trollsock) 2
    h ← host_of local_name
    exit_if (failed d) 1
    bind_to d (record { host = any_host; port = 20000 })
    pure (
      record { sock = d; name = record { host = any_host; port = 20000 } },
      record { host = h; port = 11000 },
    )

  -- Neither the socket nor what `bind` returns is looked at. The socket is bound to the address
  -- that it sends to.
  unfoldable pub send_timer_port : Action S Port
  send_timer_port = do
    h ← host_of local_name
    d ← open_socket
    bind_to d (record { host = h; port = 21000 })
    pure (record { sock = d; name = record { host = h; port = 21000 } })

  unfoldable pub request_port : ℤ → Action S Port
  request_port trollsock = do
    d ← open_socket
    exit_if (failed trollsock) 2
    p ← bound d (record { host = any_host; port = 14000 })
    named p

  -- `remote` is argv[1].
  unfoldable pub client_start : List ℕ → Action S ClientPorts
  client_start remote = do
    t ← sender 11000
    c ← sender 22000
    l ← local_port
    r ← recv_timer_port t.sock
    m ← send_timer_port
    h ← host_of remote
    q ← request_port t.sock
    pure (record {
      troll = record { sock = t.sock; name = r.1 };
      control = c;
      local = l;
      recv_timer = r.0;
      send_timer = m;
      request = q;
      destaddr = record { host = h; port = 12000 };
    })

  -- `leftover` is what the stack left in `localsock`, which the test after the second socket reads
  -- before the third one sets it.
  unfoldable pub server_start : ℤ → List ℕ → Action S ServerPorts
  server_start leftover remote = do
    f ← open_file log_name
    t ← open_socket
    exit_if (failed t) 2
    b ← bound t (record { host = any_host; port = 12000 })
    n ← named b
    r ← open_socket
    exit_if (failed leftover) 2
    h ← host_of local_name
    g ← host_of remote
    l ← open_socket
    exit_if (failed l) 2
    host_of local_name
    pure (record {
      destinationfile = f;
      troll = n;
      request = record { sock = r; name = record { host = h; port = 25000 } };
      local = record { sock = l; name = record { host = any_host; port = 13000 } };
      destaddr = record { host = g; port = 14000 };
    })

  -- The descriptor is unsigned, so that the test for a negative one always fails.
  unfoldable pub timer_start : Action S Port
  timer_start = do
    d ← open_socket
    exit_if false 2
    bound d (record { host = any_host; port = 21000 })

  unfoldable pub ftps_start : List ℕ → Action S FtpsPort
  ftps_start output = do
    d ← open_socket
    exit_if (failed d) 1
    p ← bound d (record { host = any_host; port = 13000 })
    f ← open_file output
    pure (record { local = p; pfile = f })

  -- SEND of packet.h, to the sending daemon.
  unfoldable pub send_packet : ℤ → PacketData → Action S ℤ
  send_packet d p = do
    n ← (λ s. result (os.sendto s d p daemon_address))
    exit_if (failed n) 1
    pure n

  -- The file is opened, its name copied and the header packet sent. `left` is what the stack left
  -- in `filename`, and `contents` what the file holds.
  unfoldable pub ftpc_ready : ℤ → List ℕ → PacketData → List ℕ → List ℕ → Port → Action S FtpcPorts
  ftpc_ready d file stack left contents p = do
    o ← open_file file
    f ← or_return o
    name ← or_fault (strcpy_20 file left)
    send_packet d (header_packet stack name contents)
    pure (record {
      local = record { sock = d; name = daemon_address };
      control = p;
      sourcefile = f;
      sending = header_packet stack name contents;
    })

  -- The test for one argument comes after the first socket.
  unfoldable pub ftpc_start : List (List ℕ) → PacketData → List ℕ → List ℕ → Action S FtpcPorts
  ftpc_start arguments stack left contents = do
    d ← open_socket
    exit_if (failed d) 2
    file ← or_exit (only arguments) 1
    c ← open_socket
    exit_if (failed c) 2
    p ← bound c (record { host = any_host; port = 22000 })
    ftpc_ready d file stack left contents p
