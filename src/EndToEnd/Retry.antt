-- ===== src/EndToEnd/Retry.antt =====
-- The sending daemon and the timer process together: a packet that is not acknowledged is sent
-- again.
use reliable_udp.Base.{
  ◌^◌, ==_refl, List, Option, [], ap, arith, get_elem?, if◌then◌else◌, inl, inr, leb, length, map,
  pos, refl, set, some, some_inj, subst, suc, sym, true, zero, ℕ, ℤ, ◌%◌, ◌++◌, ◌+ℤ◌, ◌+◌, ◌<ℤ◌,
  ◌<◌, ◌∙◌, ◌∷◌, ◌≡◌, ◌⊎◌,
}
use reliable_udp.Client.{
  Client, on_local, on_timer, stamped, to_ftpc, to_timer, to_troll, window_holds,
}
use reliable_udp.Client.Invariant.{Holds}
use reliable_udp.Client.Local.{after_local, on_local_lem}
use reliable_udp.Client.Retransmit.{after_resend, on_timer_lem}
use reliable_udp.FtpClient.Transfer.{transfer}
use reliable_udp.Outcome.{running}
use reliable_udp.Packet.{PacketData}
use reliable_udp.Rto.{Timeval, rto_get}
use reliable_udp.Rto.Bounds.{rto_get-positive}
use reliable_udp.Timer.{Peer, PeerList, message, timer_step}
use reliable_udp.Timer.Cancel.{IsCounted}
use reliable_udp.Timer.Deadlines.{Deadline, Placed, deadlines}
use reliable_udp.Timer.Expiry.{quiet_rounds, quiet_rounds_fire, rounds_left}
use reliable_udp.Timer.Invariant.{start-Placed, timer_step-IsCounted}

abbrev pub IsReported : ℕ → List ℕ → Type 0
IsReported n [] = ⊥
IsReported n (i ∷ ids) = (i ≡ n) ⊎ IsReported n ids

deadline-ids :
    (t : ℤ) (l : List Peer) → map (λ (d : Deadline). d.0) (deadlines t l) ≡ map (λ p. p.id) l
deadline-ids t [] = refl
deadline-ids t (p ∷ ps) = ap (◌∷◌ p.id) (deadline-ids (t +ℤ p.time_out) ps)

placed-IsReported :
    (before after : List Deadline) (n : ℕ) (due : ℤ)
    → IsReported n (map (λ (d : Deadline). d.0) (before ++ (n, due) ∷ after))
placed-IsReported [] after n due = inl refl
placed-IsReported (d ∷ ds) after n due = inr (placed-IsReported ds after n due)

-- A timer that was put among the deadlines is among the ids of the list.
started-IsReported :
    (fp : Peer) (old l : List Peer)
    → Placed fp (deadlines (pos 0) old) (deadlines (pos 0) l)
    → IsReported fp.id (map (λ p. p.id) l)
started-IsReported fp old l p = subst (IsReported fp.id) (deadline-ids (pos 0) l) (
    subst (λ ds. IsReported fp.id (map (λ (d : Deadline). d.0) ds)) (sym p.now)
      (placed-IsReported p.before p.after fp.id p.due))

pub window_holds-set :
    (w : List (Option ℕ)) (i n : ℕ) → i < length w → window_holds (set w i (some n)) n ≡ true
unfolding window_holds
window_holds-set [] i n h = absurd (omega arith)
window_holds-set (c ∷ cs) zero n h = ground (arith, ==_refl n)
window_holds-set (c ∷ cs) (suc i) n h = ground (arith, window_holds-set cs i n)

-- A message that starts a timer, and the silence after it: the timer's number is reported.
start_fires :
    (l : PeerList) (n port : ℕ) (t : ℤ)
    → IsCounted l
    → pos 0 <ℤ t
    → (l' : PeerList) × (timer_step l (message true n port t) ≡ some ([], l'))
      × (ids : List ℕ) × (l'' : PeerList) × (quiet_rounds (rounds_left l'.peers) l'
          ≡ some (ids, l''))
      × IsReported n ids
start_fires l n port t counted positive =
    let (l', step, num, placed) = start-Placed l n port t positive in
    let counted' = timer_step-IsCounted l (message true n port t) [] l' counted step in
    let (l'', fires, empty) = quiet_rounds_fire (rounds_left l'.peers) l' counted' (omega arith) in
    (
      l',
      step,
      map (λ p. p.id) l'.peers,
      l'',
      fires,
      started-IsReported (record { id = n; port = port; time_out = t }) l.peers l'.peers placed,
    )

-- A packet of the file client that finds a free window cell is sent and its timer started; if
-- nothing comes back, the timer process reports its number, within the rounds that `rounds_left`
-- counts, and the daemon then sends the same packet again and starts its timer again. The measured
-- round-trip time is from 0 up and below 2 ^ 30 microseconds here, and the last retransmission time
-- is positive.
pub sent_is_retried :
    (transfer : List PacketData) (destaddr n : ℕ) (c : Client) (d : PacketData)
    (now later : Timeval) (l : PeerList) (port measured : ℕ)
    → Holds transfer destaddr n c
    → d.sequence_num ≡ n
    → get_elem? transfer n ≡ some d
    → c.window_pointer < 20
    → c.rem_time ≡ pos measured
    → measured < 2 ^ 30
    → pos 0 <ℤ c.rto
    → IsCounted l
    → (c' : Client) × (c'' : Client) × (t : ℤ) × (t' : ℤ) × (stop : ℕ) × (l' : PeerList)
      × (ids : List ℕ) × (l'' : PeerList) × (on_local destaddr c now d
          ≡ running c' (to_troll (stamped destaddr d) ∷ to_timer n t ∷ to_ftpc stop ∷ []))
      × (timer_step l (message true n port t) ≡ some ([], l'))
      × (quiet_rounds (rounds_left l'.peers) l' ≡ some (ids, l''))
      × IsReported n ids
      × (on_timer c' later n ≡ running c'' (to_troll (stamped destaddr d) ∷ to_timer n t' ∷ []))
sent_is_retried transfer destaddr n c d now later l port measured v is at free rem brief positive
      counted =
    let c' = after_local transfer destaddr n c d v is at free now in
    let t = rto_get c.rto c.rem_time n in
    let (sends, v') = on_local_lem transfer destaddr n c d v is at free now in
    let (l', starts, ids, l'', fires, reported) =
      start_fires l n port t counted (rw rem (rto_get-positive c.rto measured n brief positive)) in
    let (e, there, resends, v'') = on_timer_lem transfer destaddr (n + 1) c' v' later n (
      rw (sym is) (
        window_holds-set c.window c.window_pointer d.sequence_num
          (omega (arith, v.length_window)))) in
    let same : e ≡ d = some_inj (sym there ∙ at) in
    (
      c',
      after_resend transfer destaddr (n + 1) c' v' later (n % 64) n,
      t,
      rto_get c'.rto c'.rem_time n,
      if leb 19 (c.window_pointer + 1) then 1 else 0,
      l',
      ids,
      l'',
      sends,
      starts,
      fires,
      reported,
      resends
          ∙ ap
              (λ x.
                running (after_resend transfer destaddr (n + 1) c' v' later (n % 64) n)
                  (to_troll (stamped destaddr x) ∷ to_timer n (rto_get c'.rto c'.rem_time n) ∷ []))
              same,
    )
