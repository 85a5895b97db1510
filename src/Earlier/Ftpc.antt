-- ===== src/Earlier/Ftpc.antt =====
-- The earlier file client, ftpc.c: the host's name, then the file's size, its name and the first
-- 976 bytes, then 1000 bytes for each signal of the daemon.
pub mod First
pub mod Sent
pub mod Exits
use reliable_udp.Base.{
  Bool, List, Option, [], drop, false, if◌then◌else◌, length, ltb, none, some, take, true, ℕ, ◌++◌,
  ◌+◌, ◌==◌, ◌∷◌,
}
use reliable_udp.Earlier.Memory.{put_at}
use reliable_udp.Outcome.{Outcome, exited, fault, running, then_on}
use reliable_udp.Packet.{int_bytes}

pub record Ftpc : Type 0 where
  pub client_buffer : List ℕ
  -- The bytes of the file that are not read yet.
  pub unread : List ℕ
  pub bytes_sent : ℕ
  pub file_size : ℕ
  -- The int in `flagBuffer`, which a failed `recvfrom` leaves as it was.
  pub flag_buffer : ℕ

-- A packet for the daemon, or the status of an `exit`.
pub data FtpcOutput : Type 0 where
  to_tcpdc : List ℕ → FtpcOutput
  status : ℕ → FtpcOutput

-- `SEND`: the client exits if `sendto` fails, and goes on otherwise.
unfoldable pub send : Bool → List ℕ → Ftpc → Outcome Ftpc FtpcOutput
send false bytes c = exited (status 5 ∷ [])
send true bytes c = running c (to_tcpdc bytes ∷ [])

-- `remoteHostName` after `strcpy`.
unfoldable pub host_packet : List ℕ → List ℕ → List ℕ
host_packet stack host = put_at 0 (host ++ 0 ∷ []) stack

-- `clientBuffer` with the size, the 20 bytes from the name on, and the start of the file.
unfoldable pub first_packet : List ℕ → List ℕ → List ℕ → List ℕ
first_packet stack name file =
    put_at 24 (take 976 file) (put_at 4 name (put_at 0 (int_bytes (length file)) stack))

-- The state after the first packet; `bytesSent` is 1000 - 24 whatever was read.
unfoldable pub after_first : List ℕ → List ℕ → List ℕ → ℕ → Ftpc
after_first stack name file unset = record {
  client_buffer = first_packet stack name file;
  unread = drop 976 file;
  bytes_sent = 976;
  file_size = length file;
  flag_buffer = unset;
}

-- The part before the loop. No file ends the client, and a host's name of 20 bytes or more is
-- copied past its array. The Booleans say which `sendto` succeeds.
unfoldable pub start_ftpc :
    List ℕ → List ℕ → ℕ → List ℕ → List ℕ → Option (List ℕ) → Bool → Bool → Outcome Ftpc FtpcOutput
start_ftpc host_stack stack unset host name none sends₁ sends₂ = exited (status 4 ∷ [])
start_ftpc host_stack stack unset host name (some file) sends₁ sends₂ =
    let c = after_first stack name file unset in
    if ltb (length host) 20
    then then_on (send sends₁ (host_packet host_stack host) c)
        (λ c'. send sends₂ (first_packet stack name file) c')
    else fault

-- What a round meets: the signal, `none` where `recvfrom` fails, and whether `sendto` succeeds.
pub record Signal : Type 0 where
  pub flag : Option ℕ
  pub sends : Bool

unfoldable pub flag_after : Option ℕ → ℕ → ℕ
flag_after none old = old
flag_after (some flag) old = flag

-- The next bytes are read and sent.
unfoldable pub send_block : Bool → Ftpc → Outcome Ftpc FtpcOutput
send_block sends c =
    let bytes = take 1000 c.unread in
    send sends bytes (record c {
      client_buffer = put_at 0 bytes c.client_buffer;
      unread = drop 1000 c.unread;
      bytes_sent = c.bytes_sent + length bytes;
    })

-- A round of the loop.
unfoldable pub ftpc_round : Ftpc → Signal → Outcome Ftpc FtpcOutput
ftpc_round c s =
    let flag = flag_after s.flag c.flag_buffer in
    let c' = record c { flag_buffer = flag } in
    if flag == 1 then send_block s.sends c' else running c' []

-- The loop, with one round for each signal; it ends when its condition fails.
unfoldable pub ftpc_loop : Ftpc → List Signal → Outcome Ftpc FtpcOutput
ftpc_loop c [] = if ltb c.bytes_sent c.file_size then running c [] else exited []
ftpc_loop c (s ∷ ss) =
    let rounds = then_on (ftpc_round c s) (λ c'. ftpc_loop c' ss) in
    if ltb c.bytes_sent c.file_size then rounds else exited []

-- The whole program.
unfoldable pub ftpc_run :
    List ℕ
    → List ℕ
    → ℕ
    → List ℕ
    → List ℕ
    → Option (List ℕ)
    → Bool
    → Bool
    → List Signal
    → Outcome Ftpc FtpcOutput
ftpc_run host_stack stack unset host name file sends₁ sends₂ ss =
    then_on (start_ftpc host_stack stack unset host name file sends₁ sends₂) (λ c. ftpc_loop c ss)
