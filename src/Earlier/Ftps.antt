-- ===== src/Earlier/Ftps.antt =====
-- The earlier file server, ftps.c: it writes what it is passed until it has seen as many bytes as
-- the first packet says.
pub mod Written
use reliable_udp.Base.{
  List, Option, [], drop, if◌then◌else◌, ltb_ℤ, none, pos, some, take, ℕ, ℤ, ◌++◌, ◌+ℤ◌, ◌-ℤ◌, ◌∷◌,
}
use reliable_udp.Earlier.Memory.{put_at, received, signed_of, unsigned_of}
use reliable_udp.Outcome.{Outcome, exited, running, then_on}
use reliable_udp.Packet.{zero_bytes}

pub record Ftps : Type 0 where
  pub bytes_received : ℤ
  pub file_size : ℤ
  pub written : List ℕ

-- The first packet. `exited` carries the file; a failed RECV exits.
unfoldable pub start_ftps : Option (List ℕ) → Outcome Ftps ℕ
start_ftps none = exited []
start_ftps (some bytes) =
    let server_buffer = put_at 0 bytes (zero_bytes 1000) in
    running
      (record {
        bytes_received = received (some bytes) -ℤ pos 24;
        file_size = signed_of (unsigned_of server_buffer);
        written = take 976 (drop 24 server_buffer);
      })
      []

-- A round of the loop.
unfoldable pub ftps_round : Ftps → Option (List ℕ) → Outcome Ftps ℕ
ftps_round s none = exited s.written
ftps_round s (some bytes) =
    running
      (record s {
        bytes_received = s.bytes_received +ℤ received (some bytes);
        written = s.written ++ bytes;
      })
      []

unfoldable pub ftps_loop : Ftps → List (Option (List ℕ)) → Outcome Ftps ℕ
ftps_loop s [] = if ltb_ℤ s.bytes_received s.file_size then running s [] else exited s.written
ftps_loop s (m ∷ ms) =
    let rounds = then_on (ftps_round s m) (λ s'. ftps_loop s' ms) in
    if ltb_ℤ s.bytes_received s.file_size then rounds else exited s.written

-- The whole program: the first packet and the following ones.
unfoldable pub ftps_run : Option (List ℕ) → List (Option (List ℕ)) → Outcome Ftps ℕ
ftps_run first ms = then_on (start_ftps first) (λ s. ftps_loop s ms)
