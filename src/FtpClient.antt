-- ===== src/FtpClient.antt =====
-- The file client, ftpclient.c: it sends the file in packets of 900 bytes, one for each signal of
-- the daemon. `sending_packet` is a local that is never cleared, so that the fields which the
-- program does not set keep what the stack held.
pub mod Transfer
pub mod Failures
mod Tests
use reliable_udp.Base.{
  Bool, List, Option, [], drop, none, some, true, if◌then◌else◌, length, ltb, take, ℕ, ◌++◌, ◌+◌,
  ◌-◌, ◌==◌, ◌∷◌,
}
use reliable_udp.Outcome.{Outcome, exited, fault, running, then_on}
use reliable_udp.Packet.{PacketData, int_bytes, zero_bytes}

pub record FtpClient : Type 0 where
  pub sending : PacketData
  -- The bytes of the file that are not read yet.
  pub unread : List ℕ

abbrev pub chunk_size : ℕ
chunk_size = 900

-- The first packet: the file's size and the 20 bytes of its name at the start of the data.
unfoldable pub header_packet : PacketData → List ℕ → List ℕ → PacketData
header_packet stack name file = record stack {
  sequence_num = 0;
  contents = int_bytes (length file) ++ (name ++ drop 24 stack.contents);
}

unfoldable pub start_ftp_client : PacketData → List ℕ → List ℕ → FtpClient
start_ftp_client stack name file = record { sending = header_packet stack name file; unread = file }

-- Zeroed data with what `fread` puts at its start.
unfoldable pub filled_data : List ℕ → List ℕ
filled_data bytes = bytes ++ zero_bytes (chunk_size - length bytes)

unfoldable pub chunk_packet : PacketData → List ℕ → PacketData
chunk_packet sending bytes = record sending {
  sequence_num = sending.sequence_num + 1;
  bytes_in_packet = length bytes;
  contents = filled_data bytes;
}

-- The FIN packet. `bzero` is asked for 1000 bytes of the 900; `send_fin` says what comes of that.
unfoldable pub fin_packet : PacketData → PacketData
fin_packet sending = record sending {
  sequence_num = sending.sequence_num + 1;
  bytes_in_packet = 0;
  fin = 1;
  contents = zero_bytes 900;
}

-- How a round of the client ends: it waits for the next signal, it exits with a status, or it has
-- overwritten memory that is in use. What it sent comes with the first two.
pub data Round : Type 0 where
  waits : FtpClient → List PacketData → Round
  exits : ℕ → List PacketData → Round
  spoiled : Round

-- The FIN packet is sent behind `sent`, and the client exits. `bzero` runs past the data, over the
-- checksum, which is not used, and 92 bytes behind the packet: `spare` says whether these are
-- unused too. `fin_ok` says whether SEND's sendto succeeds; if not, SEND exits.
unfoldable pub send_fin : Bool → Bool → PacketData → Round
send_fin spare fin_ok sent =
    if spare
    then (if fin_ok then exits 0 (sent ∷ fin_packet sent ∷ []) else exits 1 (sent ∷ []))
    else spoiled

-- A packet is read and sent, `ok` saying whether its sendto succeeds. `feof` holds after a read
-- that found fewer bytes than it asked for; then the FIN packet follows and the client exits.
unfoldable pub chunk_round : Bool → Bool → Bool → FtpClient → Round
chunk_round spare ok fin_ok c =
    let bytes = take chunk_size c.unread in
    let sent = chunk_packet c.sending bytes in
    if ok
    then (if ltb (length bytes) chunk_size
        then send_fin spare fin_ok sent
        else waits (record { sending = sent; unread = drop chunk_size c.unread }) (sent ∷ []))
    else exits 1 []

-- A control message of the daemon: 1 is the signal to sleep.
unfoldable pub signal_round : Bool → Bool → Bool → FtpClient → ℕ → Round
signal_round spare ok fin_ok c stop =
    if stop == 1 then waits c [] else chunk_round spare ok fin_ok c

-- What `select` reports: an error, or a control message, `none` where RECV_C fails, with the
-- outcomes of the two sends that it may lead to.
pub data FtpClientEvent : Type 0 where
  select_error : FtpClientEvent
  heard : Option ℕ → Bool → Bool → FtpClientEvent

-- A failed RECV_C leaves `received_packet` and its flag as they were.
unfoldable pub stop_flag : ℕ → Option ℕ → ℕ
stop_flag stop none = stop
stop_flag stop (some received) = received

unfoldable pub then_waits : Round → (FtpClient → Round) → Round
then_waits (waits c os) next = elim (next c) [
  | waits c' ps ↦ waits c' (os ++ ps)
  | exits n ps ↦ exits n (os ++ ps)
  | spoiled ↦ spoiled
]
then_waits (exits n os) next = exits n os
then_waits spoiled next = spoiled

-- The loop, whichever calls fail; `stop` is the flag of `received_packet`.
unfoldable pub ftp_client_rounds : Bool → ℕ → FtpClient → List FtpClientEvent → Round
ftp_client_rounds spare stop c [] = waits c []
ftp_client_rounds spare stop c (select_error ∷ es) = exits 2 []
ftp_client_rounds spare stop c (heard received ok fin_ok ∷ es) =
    let stop' = stop_flag stop received in
    then_waits (signal_round spare ok fin_ok c stop') (λ c'. ftp_client_rounds spare stop' c' es)

-- The client as the other programs see it.
unfoldable pub seen : Round → Outcome FtpClient PacketData
seen (waits c os) = running c os
seen (exits n os) = exited os
seen spoiled = fault

-- Rounds in which no call fails and the bytes behind the packet are unused.
unfoldable pub send_chunk : FtpClient → Outcome FtpClient PacketData
send_chunk c = seen (chunk_round true true true c)

unfoldable pub ftp_client_step : FtpClient → ℕ → Outcome FtpClient PacketData
ftp_client_step c stop = seen (signal_round true true true c stop)

unfoldable pub ftp_client_run : FtpClient → List ℕ → Outcome FtpClient PacketData
ftp_client_run c [] = running c []
ftp_client_run c (stop ∷ stops) = then_on (ftp_client_step c stop) (λ c'. ftp_client_run c' stops)
