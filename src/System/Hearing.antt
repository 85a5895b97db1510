-- ===== src/System/Hearing.antt =====
-- What the sending daemon reads of an acknowledgement: one packet, or two for a FINACK, as the
-- receiving daemon sends them.
use reliable_udp.Base.{[], arith, false, pos, some, ◌-ℤ◌, ◌∷◌, ◌≡◌, ◌≢◌}
use reliable_udp.Client.{is_fin2}
use reliable_udp.Crc.{checksum_of}
use reliable_udp.Packet.{Packet}
use reliable_udp.Rto.{Timeval, timeval_diff}
use reliable_udp.Server.{Server}
use reliable_udp.System.{hearing, reads_two}

-- What the stack left in the receiving daemon's `request_packet` is no FINACK, and its text not FIN2.
pub record IsPolite (received : Packet) (s : Server) : Type 0 where
  pub no_finack : s.request.packetdata.finack ≢ 1
  pub other_text : is_fin2 s.request.packetdata.contents ≡ false
  pub unset : s.received ≡ received

pub no_time : (now : Timeval) → timeval_diff now now ≡ pos 0
unfolding timeval_diff ◌-ℤ◌
no_time now = ground arith

pub not_two : (p : Packet) → p.packetdata.finack ≢ 1 → hearing (p ∷ []) ≡ some (p, p, [])
unfolding hearing reads_two
not_two p ne = ground arith

pub two :
    (p : Packet)
    → checksum_of p.packetdata ≡ p.checksum
    → p.packetdata.finack ≡ 1
    → hearing (p ∷ p ∷ []) ≡ some (p, p, [])
unfolding hearing reads_two
two p right last = ground arith
