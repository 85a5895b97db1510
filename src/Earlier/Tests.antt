-- ===== src/Earlier/Tests.antt =====
-- A file of 980 bytes, so that one block of four bytes follows the first packet.
use reliable_udp.Base.{
  ◌+◌, List, [], arith, drop, false, length, none, pos, refl, replicate, some, true, ℕ, ◌++◌, ◌∷◌,
  ◌≡◌,
}
use reliable_udp.Earlier.Blocks.{blocks, delivered}
use reliable_udp.Earlier.Ftpc.{Ftpc, Signal, after_first, first_packet, ftpc_loop, host_packet}
use reliable_udp.Earlier.Ftpc.Sent.{
  Accounts, SomeFails, after_first-Counts, ftpc_loop-Accounts, to_send,
}
use reliable_udp.Earlier.Tcpds.{Tcpds, TcpdsOutput, tcpds_loop}
use reliable_udp.Earlier.Tcpds.Passes.{ack_numbers, for_ftps, numbers_after, tcpds_loop_passes}
use reliable_udp.Earlier.Ftps.{ftps_run}
use reliable_udp.Earlier.Runs.{packets_written}
use reliable_udp.Outcome.{exited}

abbrev file : List ℕ
file = replicate 980 7

abbrev stack : List ℕ
stack = replicate 1000 0

abbrev name : List ℕ
name = replicate 20 0

abbrev first : List ℕ
first = first_packet stack name file

abbrev host_name : List ℕ
host_name = host_packet (replicate 20 0) (b'h' ∷ [])

abbrev go : Signal
go = record { flag = some 1; sends = true }

abbrev block : List ℕ
block = 7 ∷ 7 ∷ 7 ∷ 7 ∷ []

packets_written_example :
    ftps_run (some first) (delivered (blocks (drop 976 file)))
    ≡ exited (file ++ drop (24 + length file) stack)
packets_written_example = packets_written stack name file refl refl (omega arith)

-- A packet with nothing but zeros before its block: its checksum is wrong.
abbrev receiver : Tcpds
receiver = record {
  message_buffer = replicate 1036 0;
  seq_number = 1000;
  bytes_sent = pos 976;
  file_size = pos 980;
}

tcpds_loop_passes_example :
    (os : List TcpdsOutput) × (tcpds_loop receiver ((some (replicate 36 0 ++ block) ∷ []) ++ [])
      ≡ exited os)
    × (for_ftps os ≡ block ∷ [])
    × (ack_numbers os ≡ numbers_after 1000 (block ∷ []))
tcpds_loop_passes_example =
    tcpds_loop_passes (block ∷ []) (some (replicate 36 0 ++ block) ∷ []) [] receiver 976 980 refl
      refl refl ((replicate 36 0, refl, refl), tt) (omega arith, omega arith, omega arith)

abbrev client : Ftpc
client = after_first stack name file 0

abbrev failing : Signal
failing = record { flag = none; sends = false }

ftpc_loop-Accounts_example :
    Accounts (SomeFails (failing ∷ go ∷ [])) (to_send client) (ftpc_loop client (failing ∷ go ∷ []))
ftpc_loop-Accounts_example =
    ftpc_loop-Accounts (failing ∷ go ∷ []) client (after_first-Counts stack name file 0)
