-- ===== src/FtpServer.antt =====
-- The file server, ftpserver.c: it writes the data of each packet until one has the FIN flag.
use reliable_udp.Base.{
  Bool, List, [], drop, false, if◌then◌else◌, leb, take, true, ℕ, ◌++◌, ◌==◌, ◌∷◌,
}
use reliable_udp.Outcome.{Outcome, exited, fault, running, then_on}
use reliable_udp.Packet.{PacketData}

pub record FtpServer : Type 0 where
  pub first_packet : Bool
  -- The size and the name that the first packet is taken to hold; they are only printed.
  pub size_bytes : List ℕ
  pub name_bytes : List ℕ
  pub written : List ℕ

abbrev pub start_ftp_server : FtpServer
start_ftp_server = record { first_packet = true; size_bytes = []; name_bytes = []; written = [] }

unfoldable pub note_first : FtpServer → PacketData → FtpServer
note_first s d =
    if s.first_packet
    then record s {
      first_packet = false;
      size_bytes = take 4 d.contents;
      name_bytes = take 20 (drop 4 d.contents);
    }
    else s

-- A round of the loop; `exited` carries the file. A copy of more than the 900 bytes of data is a
-- fault.
unfoldable pub ftp_server_step : FtpServer → PacketData → Outcome FtpServer ℕ
ftp_server_step s d =
    if leb d.bytes_in_packet 900
    then (let s' = note_first s d in
        if d.fin == 1
        then exited s'.written
        else running (record s' { written = s'.written ++ take d.bytes_in_packet d.contents }) [])
    else fault

unfoldable pub ftp_server_run : FtpServer → List PacketData → Outcome FtpServer ℕ
ftp_server_run s [] = running s []
ftp_server_run s (d ∷ ds) = then_on (ftp_server_step s d) (λ s'. ftp_server_run s' ds)
