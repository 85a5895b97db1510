-- ===== src/Startup/Tests.antt =====
-- A machine whose state is the ports that are taken.
use reliable_udp.Base.{
  Bool-cases, List, [], false, if◌then◌else◌, inl, inr, negsuc, pos, refl, some, true, ℕ, ℤ, ◌||◌,
  ◌∷◌, ◌≡◌, ◌⊎◌,
}
use reliable_udp.Packet.{PacketData}
use reliable_udp.Startup.{Address, Os, any_host, begun, ended, exit_if, failed, or_exit, then_with}
use reliable_udp.Startup.Leftover.{server_start_leftover}
use reliable_udp.Startup.Machine.{IsMachine, joined, taken}
use reliable_udp.Startup.Open.{AreOpen, client_start_open}
use reliable_udp.Startup.Order.{start_order}
use reliable_udp.Startup.Programs.{
  ClientPorts, Port, ServerPorts, bound, client_start, host_of, local_port, named, recv_timer_port,
  request_port, send_timer_port, sender, server_start, timer_start,
}

abbrev home : ℕ
home = 16777343

abbrev grants : List ℕ → ℤ → Address → ℤ × List ℕ
grants ps d a = if failed d || taken a.port ps then (negsuc 0, ps) else (pos 0, a.port ∷ ps)

abbrev machine : Os (List ℕ)
machine = record {
  socket = λ ps. (pos 3, ps);
  bind = grants;
  getsockname = λ ps d. (some (record { host = any_host; port = 14000 }), ps);
  gethostbyname = λ ps n. (some home, ps);
  fopen = λ ps n. (some 1, ps);
  sendto = λ ps d p a. (pos 968, ps);
}

grants_binds :
    (ps : List ℕ) (d : ℤ) (a : Address)
    → failed d ≡ false
    → (failed ((grants ps d a).0) ≡ taken a.port ps) × ((grants ps d a).1 ≡ joined a.port ps)
grants_binds ps d a e = elim (Bool-cases (taken a.port ps)) [
  | inl h ↦ rw (e, h) (refl, refl)
  | inr h ↦ rw (e, h) (refl, refl)
]

machine-IsMachine : IsMachine machine (λ ps. ps) (107 ∷ [])
machine-IsMachine = record {
  here = home;
  opens = λ s. refl;
  opens_keeps = λ s. refl;
  finds_here = λ s. refl;
  finds_remote = λ s. (home, refl);
  finds_keeps = λ s n. refl;
  files_keep = λ s n. refl;
  names = λ s d e. (record { host = any_host; port = 14000 }, refl);
  names_keep = λ s d. refl;
  binds = λ s d a e own. grants_binds s d a e;
}

start_order_example :
    ((c : ClientPorts) × (t : List ℕ) × (client_start machine (107 ∷ []) [] ≡ begun c t)
      × (timer_start machine t ≡ ended 2))
    × ((p : Port) × (t : List ℕ) × (timer_start machine [] ≡ begun p t)
        × (c : ClientPorts) × (u : List ℕ) × (client_start machine (107 ∷ []) t ≡ begun c u))
start_order_example = start_order machine (λ ps. ps) (107 ∷ []) machine-IsMachine [] refl refl refl

server_start_leftover_example :
    ((failed (negsuc 4) ≡ true) × (server_start machine (negsuc 4) (107 ∷ []) [] ≡ ended 2))
    ⊎ ((failed (negsuc 4) ≡ false)
        × ((c : ServerPorts) × (t : List ℕ) × (server_start machine (negsuc 4) (107 ∷ []) []
              ≡ begun c t)))
server_start_leftover_example =
    server_start_leftover machine (λ ps. ps) (107 ∷ []) machine-IsMachine (negsuc 4) [] refl

refuses_bad :
    (s : List ℕ) (d : ℤ) (a : Address) → failed d ≡ true → failed ((grants s d a).0) ≡ true
refuses_bad s d a e = rw e refl

abbrev at : ℕ → ℕ → Port
at h p = record { sock = pos 3; name = record { host = h; port = p } }

abbrev ports_there : ClientPorts
ports_there = record {
  troll = at home 11000;
  control = at home 22000;
  local = at home 9005;
  recv_timer = at any_host 20000;
  send_timer = at home 21000;
  request = at any_host 14000;
  destaddr = record { host = home; port = 12000 };
}

client_starts :
    client_start machine (107 ∷ []) [] ≡ begun ports_there (14000 ∷ 21000 ∷ 20000 ∷ 9005 ∷ [])
unfolding client_start sender local_port recv_timer_port send_timer_port request_port bound named
    host_of then_with exit_if or_exit
client_starts = refl

client_start_open_example : AreOpen ports_there
client_start_open_example =
    client_start_open machine refuses_bad (107 ∷ []) [] ports_there
      (14000 ∷ 21000 ∷ 20000 ∷ 9005 ∷ []) client_starts

abbrev nobody : PacketData
nobody = record {
  sequence_num = 0;
  ack = 0;
  ackseq = 0;
  bytes_in_packet = 0;
  fin = 0;
  finack = 0;
  stop = 0;
  contents = [];
}
