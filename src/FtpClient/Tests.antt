-- ===== src/FtpClient/Tests.antt =====
-- A file of two bytes.
use reliable_udp.Base.{List, [], arith, none, refl, some, true, false, ◌∷◌, ◌≡◌}
use reliable_udp.FtpClient.{FtpClient, FtpClientEvent, exits, ftp_client_rounds, heard, stop_flag}
use reliable_udp.FtpClient.Failures.{Accounts, ftp_client_rounds-Accounts, ftp_client_rounds_exit}
use reliable_udp.FtpClient.Transfer.{to_send}
use reliable_udp.Packet.{PacketData, zero_bytes}

abbrev stack : PacketData
stack = record {
  sequence_num = 5;
  ack = 6;
  ackseq = 7;
  bytes_in_packet = 0;
  fin = 9;
  finack = 8;
  stop = 4;
  contents = zero_bytes 900;
}

abbrev client : FtpClient
client = record { sending = stack; unread = 1 ∷ 2 ∷ [] }

-- A signal to sleep comes first, then a RECV_C that fails, and a signal to go on.
abbrev events : List FtpClientEvent
events = heard (some 1) true true ∷ heard none true true ∷ heard (some 0) true true ∷ []

ftp_client_rounds_exit_example : ftp_client_rounds true 7 client events ≡ exits 0 (to_send client)
unfolding stop_flag
ftp_client_rounds_exit_example =
    ftp_client_rounds_exit 7 client events (refl, refl, (refl, refl, (refl, refl, tt)))
      (omega arith)

-- The FIN packet cannot be sent.
ftp_client_rounds-Accounts_example :
    Accounts true
      (to_send client)
      (ftp_client_rounds true 7 client (heard (some 0) true false ∷ []))
ftp_client_rounds-Accounts_example =
    ftp_client_rounds-Accounts true 7 client (heard (some 0) true false ∷ [])
