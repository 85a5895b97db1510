-- ===== src/System/Lost.antt =====
-- A packet that is lost on its way to the receiving daemon, as often as one likes, and sent again
-- when its timer has run out.
use reliable_udp.Base.{
  List, Option, [], append-nil, arith, get_elem?, pos, refl, replicate, some, some_inj, subst, suc,
  sym, true, zero, ℕ, ◌++◌, ◌+◌, ◌%◌, ◌<ℤ◌, ◌∙◌, ◌∷◌, ◌≡◌, ◌⊎◌, ==_refl,
}
use reliable_udp.Client.{Client, client_step, stamped, window_holds}
use reliable_udp.Client.Invariant.{Holds}
use reliable_udp.Client.Retransmit.{after_resend, on_timer_lem}
use reliable_udp.FtpClient.{FtpClient}
use reliable_udp.FtpServer.{FtpServer}
use reliable_udp.Packet.{PacketData}
use reliable_udp.Rto.{Eighths, Timeval, rto_get}
use reliable_udp.Rto.Bounds.{rto_get-positive}
use reliable_udp.Server.{Server}
use reliable_udp.System.{
  System, client_expires, expiry_turn, forward_trouble, forward_turn, lose, network, read_turn,
  system_step, timer_port, timer_reads,
}
use reliable_udp.System.Calm.{Leads, quiet, step, ticks}
use reliable_udp.Timer.{
  PeerList, add_peer_to_list, count_after, del_peer_from_list, hand_over, insert_peer, is_zero,
  message, new_peer, peer_exists, take_node, timer_step, unlink,
}
use reliable_udp.Timer.Expiry.{rounds_left}

-- The list with one timer.
abbrev pub only_timer : PeerList → ℕ → Eighths → PeerList
only_timer l n t = record {
  num_peers = l.num_peers + 1;
  peers = record { id = n; port = timer_port; time_out = t } ∷ [];
}

pub start_alone :
    (l : PeerList) (n : ℕ) (t : Eighths)
    → l.peers ≡ []
    → pos 0 <ℤ t
    → timer_step l (message true n timer_port t) ≡ some ([], only_timer l n t)
unfolding timer_step new_peer is_zero take_node add_peer_to_list insert_peer
start_alone l n t empty h = ground arith

pub cancel_alone :
    (l : PeerList) (n : ℕ) (t : Eighths)
    → timer_step (only_timer l n t) (message true n timer_port (pos 0))
      ≡ some ([], record { num_peers = l.num_peers + 1; peers = [] })
unfolding timer_step new_peer is_zero take_node del_peer_from_list unlink hand_over count_after
    peer_exists
cancel_alone l n t = ground (arith, ==_refl n)

-- What the daemon computes times from: the clock stands still.
pub record IsTimed (now : Timeval) (c : Client) : Type 0 where
  pub positive : pos 0 <ℤ c.rto
  pub measured : c.rem_time ≡ pos 0

pub time-positive :
    (now : Timeval) (c : Client) (n : ℕ) → IsTimed now c → pos 0 <ℤ rto_get c.rto c.rem_time n
time-positive now c n v = rw v.measured (rto_get-positive c.rto 0 n (omega arith) v.positive)

-- The packet with the number `n` is out, alone in the window.
pub record IsOut (all : List PacketData) (to_server n : ℕ) (now : Timeval) (c : Client)
    : Type 0 where
  pub holds : Holds all to_server (n + 1) c
  pub alone : c.window_pointer ≡ 1
  pub waits : window_holds c.window n ≡ true
  pub timed : IsTimed now c
  pub started : c.start_time ≡ now

module _ (to_server to_client : ℕ) (all : List PacketData) (now : Timeval) (n : ℕ) (d : PacketData)
    (at : get_elem? all n ≡ some d) (is : d.sequence_num ≡ n) (f : Option FtpClient) (s : Server)
    (ds passed : List PacketData) (w : FtpServer ⊎ List ℕ) (lost : List ℕ)
    (P : System → Type 0) where
  -- The packet is on its way, and the message for its timer too.
  abbrev pub out : List ℕ → Client → PeerList → Eighths → System
  out signals c l t = record (quiet f signals ds c s passed w l) {
    forward = stamped to_server d ∷ [];
    started = (n, t) ∷ [];
  }

  -- The timer has run out.
  resent :
      (signals : List ℕ) (c : Client) (l : PeerList)
      → IsOut all to_server n now c
      → (c' : Client) × (system_step to_server to_client
            (record (quiet f signals ds c s passed w l) { expired = n ∷ [] })
            (client_expires now)
          ≡ some (out (signals ++ []) c' l (rto_get c.rto c.rem_time n)))
        × IsOut all to_server n now c'
  unfolding system_step expiry_turn client_step
  resent signals c l v =
      let (e, there, sends, holds') = on_timer_lem all to_server (n + 1) c v.holds now n v.waits in
      let same : e ≡ d = some_inj (sym there ∙ at) in
      (
        after_resend all to_server (n + 1) c v.holds now (n % 64) n,
        rw (sends, same) refl,
        record {
          holds = holds';
          alone = v.alone;
          waits = v.waits;
          timed = record { positive = time-positive now c n v.timed; measured = v.timed.measured };
          started = refl;
        },
      )

  -- The packet is lost `k` times and is on its way again.
  pub lost_again :
      (k : ℕ) (signals : List ℕ) (c : Client) (l : PeerList) (t : Eighths)
      → l.peers ≡ []
      → pos 0 <ℤ t
      → IsOut all to_server n now c
      → ((c' : Client) (l' : PeerList) (t' : Eighths)
          → l'.peers ≡ []
          → pos 0 <ℤ t'
          → IsOut all to_server n now c'
          → Leads to_server to_client lost P (out signals c' l' t'))
      → Leads to_server to_client (replicate k n ++ lost) P (out signals c l t)
  unfolding system_step forward_turn network read_turn stamped
  lost_again zero signals c l t empty h v next = next c l t empty h v
  lost_again (suc k) signals c l t empty h v next =
      let started = only_timer l n t in
      subst (λ m. Leads to_server to_client (m ∷ (replicate k n ++ lost)) P (out signals c l t)) is
        (step to_server to_client (replicate k n ++ lost) P (out signals c l t)
          (forward_trouble lose)
          (record (quiet f signals ds c s passed w l) { started = (n, t) ∷ [] }) tt refl
          (step to_server to_client (replicate k n ++ lost) P _ (timer_reads true)
            (quiet f signals ds c s passed w started) tt (rw (start_alone l n t empty h) refl)
            (ticks to_server to_client (rounds_left started.peers) (replicate k n ++ lost) P
              (quiet f signals ds c s passed w started) started [] (omega arith) (omega arith)
              (λ l' empty'.
                let (c', resends, v') = resent signals c l' v in
                step to_server to_client (replicate k n ++ lost) P _ (client_expires now)
                  (out (signals ++ []) c' l' (rto_get c.rto c.rem_time n)) tt resends
                  (subst
                    (λ x.
                      Leads to_server to_client (replicate k n ++ lost) P
                        (out x c' l' (rto_get c.rto c.rem_time n)))
                    (sym (append-nil signals))
                    (lost_again k signals c' l' (rto_get c.rto c.rem_time n) empty'
                      (time-positive now c n v.timed) v' next))))))
