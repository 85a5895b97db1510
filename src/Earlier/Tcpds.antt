-- ===== src/Earlier/Tcpds.antt =====
-- The earlier receiving daemon, tcpds.c. As it stands it does not compile: it names the fields
-- `messageHeader` and `messageBody` of `message` and the constant TCPDC_PORT, which it does not
-- declare, passes a structure to bzero, and calls gen_crc_table, where crc32.c has crcTableInit.
-- What it writes to `message` is read nowhere, and `ackPacket` is zero without bzero. The model
-- takes crcTableInit for gen_crc_table, and the rest as it is written.
pub mod Passes
pub mod Start
use reliable_udp.Base.{
  List, Option, [], drop, if◌then◌else◌, length, ltb, ltb_ℤ, negsuc, none, pos, some, take, ℕ, ℤ,
  ◌%◌, ◌++◌, ◌+ℤ◌, ◌+◌, ◌-◌, ◌==◌, ◌^◌, ◌∷◌,
}
use reliable_udp.Crc32.{update_crc}
use reliable_udp.Earlier.Header.{TcpHeader, header_bytes, read_header, zero_header}
use reliable_udp.Earlier.Memory.{put_at, signed_of, unsigned_of}
use reliable_udp.Outcome.{Outcome, exited, fault, running, then_on}
use reliable_udp.Packet.{zero_bytes}

pub record Tcpds : Type 0 where
  pub message_buffer : List ℕ
  pub seq_number : ℕ
  pub bytes_sent : ℤ
  pub file_size : ℤ

-- A number in the list of checksum mismatches, an acknowledgement, and bytes for the file server.
pub data TcpdsOutput : Type 0 where
  to_log : ℕ → TcpdsOutput
  to_ack : List ℕ → TcpdsOutput
  to_ftps : List ℕ → TcpdsOutput

-- The header in a buffer, behind the address.
unfoldable pub buffer_header : List ℕ → TcpHeader
buffer_header buffer = read_header (take 20 (drop 16 buffer))

-- The buffer with zero for the checksum.
unfoldable pub without_checksum : List ℕ → List ℕ
without_checksum buffer =
    put_at 16 (header_bytes (record (buffer_header buffer) { check_sum = 0 })) buffer

-- The checksum of a packet of so many bytes, as an unsigned short int.
unfoldable pub computed_crc : ℕ → List ℕ → ℕ
computed_crc size buffer = update_crc (take (size - 16) (drop 16 buffer)) % 65536

-- The number of a packet whose checksum is not the computed one.
unfoldable pub logged : ℕ → List ℕ → List TcpdsOutput
logged size buffer =
    let header = buffer_header buffer in
    if header.check_sum == computed_crc size (without_checksum buffer)
    then []
    else to_log header.sequence_number ∷ []

-- The first packet: 1000 bytes go to the file server, whatever was received. With fewer than 16
-- bytes `update_crc` is asked for a negative number of bytes, which is a fault.
unfoldable pub start_tcpds : Option (List ℕ) → Outcome Tcpds TcpdsOutput
start_tcpds none = fault
start_tcpds (some bytes) =
    let buffer = put_at 0 bytes (zero_bytes 1036) in
    let seq = (buffer_header buffer).sequence_number in
    let server_buffer = take 1000 (drop 36 buffer) in
    if ltb (length bytes) 16
    then fault
    else running
        (record {
          message_buffer = zero_bytes 1036;
          seq_number = seq;
          bytes_sent = pos 976;
          file_size = signed_of (unsigned_of server_buffer);
        })
        (logged (length bytes) buffer
          ++ (to_ftps server_buffer
              ∷ to_ack (header_bytes (record zero_header { sequence_number = seq }))
              ∷ []))

-- The bytes behind the header. With fewer than 36 bytes `sendto` is asked for a negative number,
-- fails, and returns -1.
unfoldable pub passed_on : ℕ → List ℕ → List TcpdsOutput
passed_on size buffer = if ltb size 36 then [] else to_ftps (take (size - 36) (drop 36 buffer)) ∷ []

unfoldable pub sent_size : ℕ → ℤ
sent_size size = if ltb size 36 then negsuc 0 else pos (size - 36)

-- A round of the loop: the acknowledgement is the packet's header with the next number.
unfoldable pub tcpds_round : Tcpds → Option (List ℕ) → Outcome Tcpds TcpdsOutput
tcpds_round s none = fault
tcpds_round s (some bytes) =
    let buffer = put_at 0 bytes s.message_buffer in
    let size = length bytes in
    let seq = (s.seq_number + 1) % 2 ^ 32 in
    if ltb size 16
    then fault
    else running
        (record s {
          message_buffer = without_checksum buffer;
          seq_number = seq;
          bytes_sent = s.bytes_sent +ℤ sent_size size;
        })
        (logged size buffer
          ++ (to_ack (
                header_bytes
                  (record (buffer_header buffer) { check_sum = 0; sequence_number = seq }))
              ∷ passed_on size buffer))

unfoldable pub tcpds_loop : Tcpds → List (Option (List ℕ)) → Outcome Tcpds TcpdsOutput
tcpds_loop s [] = if ltb_ℤ s.bytes_sent s.file_size then running s [] else exited []
tcpds_loop s (m ∷ ms) =
    let rounds = then_on (tcpds_round s m) (λ s'. tcpds_loop s' ms) in
    if ltb_ℤ s.bytes_sent s.file_size then rounds else exited []

-- The whole program: the first packet and the following ones.
unfoldable pub tcpds_run : Option (List ℕ) → List (Option (List ℕ)) → Outcome Tcpds TcpdsOutput
tcpds_run first ms = then_on (start_tcpds first) (λ s. tcpds_loop s ms)
