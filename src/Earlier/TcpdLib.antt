-- ===== src/Earlier/TcpdLib.antt =====
-- The earlier library of the daemons, tcpd_lib.c: a message for the timer. `htonl` is a parameter.
use reliable_udp.Base.{ℕ, ℤ, ◌%◌}
use reliable_udp.Earlier.Memory.{signed_of}

-- `timerMess`, with a time in an int, and the port that it is sent to.
pub record TimerMess : Type 0 where
  pub seq_no : ℕ
  pub port : ℕ
  pub timeout : ℤ

pub record TimerDatagram : Type 0 where
  pub sin_port : ℕ
  pub message : TimerMess

-- `timer`. `sin_port` has 16 bits, and `htonl` returns 32.
unfoldable pub timer : (ℕ → ℕ) → ℕ → ℕ → ℕ → TimerDatagram
timer htonl seq sockfd timeout = record {
  sin_port = htonl 20000 % 65536;
  message = record { seq_no = seq; port = sockfd; timeout = signed_of timeout };
}
