-- ===== src/System/Calm.antt =====
-- Runs of the programs in which the network does nothing but lose packets of the sending daemon.
use mathlib.Core.Option
use reliable_udp.Base.{
  List, Option, [], ap, append-nil, map, subst, sym, ◌≤◌, append_assoc, none, refl, some, suc, zero,
  ℕ, ◌++◌, ◌∙◌, ◌∷◌, ◌≡◌, ◌⊎◌,
}
use reliable_udp.Client.{Client}
use reliable_udp.FtpClient.{FtpClient}
use reliable_udp.FtpServer.{FtpServer}
use reliable_udp.Packet.{Packet, PacketData}
use reliable_udp.Rto.{Eighths}
use reliable_udp.Server.{Server, seq_of}
use reliable_udp.System.{
  Move, System, lose, backward_trouble, forward_trouble, system_run, system_step, timer_ticks,
}
use reliable_udp.Timer.{Peer, PeerList, tick_nodes}
use reliable_udp.Timer.Cancel.{IsCounted}
use reliable_udp.Timer.Expiry.{
  due_ids, ids-quiet, quiet_lem, rounds_left, rounds_left-quiet, rounds_left-zero,
}

-- The numbers of the packets of the sending daemon that a move, and a run, loses.
abbrev pub front_number : List Packet → List ℕ
front_number [] = []
front_number (p ∷ ps) = seq_of p ∷ []

abbrev pub lost_by : System → Move → List ℕ
lost_by y (forward_trouble lose) = front_number y.forward
lost_by y m = []

-- The network loses packets of the sending daemon and does nothing else.
abbrev pub IsLossOnly : Move → Type 0
IsLossOnly (forward_trouble lose) = Unit
IsLossOnly (forward_trouble t) = ⊥
IsLossOnly (backward_trouble t) = ⊥
IsLossOnly m = Unit

abbrev pub AllLossOnly : List Move → Type 0
AllLossOnly [] = Unit
AllLossOnly (m ∷ ms) = IsLossOnly m × AllLossOnly ms

-- The system when nothing is under way between the programs.
abbrev pub quiet :
    Option FtpClient
    → List ℕ
    → List PacketData
    → Client
    → Server
    → List PacketData
    → FtpServer ⊎ List ℕ
    → PeerList
    → System
quiet f signals ds c s passed w l = record {
  ftpc = f;
  signals = signals;
  handed = ds;
  client = some c;
  forward = [];
  server = some s;
  backward = [];
  passed = passed;
  ftps = w;
  started = [];
  timer = l;
  expired = [];
}

-- The system when both daemons have exited.
abbrev pub ended :
    Option FtpClient
    → List ℕ
    → List PacketData
    → List PacketData
    → FtpServer ⊎ List ℕ
    → List (ℕ × Eighths)
    → PeerList
    → System
ended f signals ds passed w started l = record {
  ftpc = f;
  signals = signals;
  handed = ds;
  client = none;
  forward = [];
  server = none;
  backward = [];
  passed = passed;
  ftps = w;
  started = started;
  timer = l;
  expired = [];
}

module _ (to_server to_client : ℕ) where
  unfoldable pub lost_in : System → List Move → List ℕ
  lost_in y [] = []
  lost_in y (m ∷ ms) =
      lost_by y m
      ++ elim (system_step to_server to_client y m) [ none ↦ [] | some z ↦ lost_in z ms ]

  -- Such a run, in which just these packets are lost, leads to a state of this kind.
  abbrev pub Leads : List ℕ → (System → Type 0) → System → Type 0
  Leads lost P y =
      (ms : List Move) × (z : System) × AllLossOnly ms
      × (system_run to_server to_client y ms ≡ some z)
      × (lost_in y ms ≡ lost)
      × P z

  pub here : (P : System → Type 0) (y : System) → P y → Leads [] P y
  unfolding system_run lost_in
  here P y h = ([], y, tt, refl, refl, h)

  pub step :
      (lost : List ℕ) (P : System → Type 0) (y : System) (m : Move) (z : System)
      → IsLossOnly m
      → system_step to_server to_client y m ≡ some z
      → Leads lost P z
      → Leads (lost_by y m ++ lost) P y
  unfolding system_run lost_in Option.bind
  step lost P y m z only e (ms, w, all_only, run, l, h) =
      (m ∷ ms, w, (only, all_only), rw e run, rw e (ap (λ x. lost_by y m ++ x) l), h)

  -- While nothing else happens, the timer process reports all its timers and has none left.
  pub ticks :
      (k : ℕ) (lost : List ℕ) (P : System → Type 0) (y : System) (l : PeerList) (already : List ℕ)
      → IsCounted l
      → rounds_left l.peers ≤ k
      → ((l' : PeerList)
          → l'.peers ≡ []
          → Leads lost P (record y { timer = l'; expired = already ++ map (λ p. p.id) l.peers }))
      → Leads lost P (record y { timer = l; expired = already })
  unfolding system_step
  ticks zero lost P y l already counted few next =
      let none_left : l.peers ≡ [] = rounds_left-zero l.peers few in
      subst (λ ids. Leads lost P (record y { timer = l; expired = ids }))
        (ap (λ (ps : List Peer). already ++ map (λ p. p.id) ps) none_left ∙ append-nil already)
        (next l none_left)
  ticks (suc k) lost P y l already counted few next =
      let (l₁, tick, kept, counted₁) = quiet_lem l counted in
      step lost P (record y { timer = l; expired = already }) timer_ticks
        (record y { timer = l₁; expired = already ++ due_ids (tick_nodes l.peers) }) tt
        (rw tick refl)
        (ticks k lost P y l₁ (already ++ due_ids (tick_nodes l.peers)) counted₁
          (rw kept (rounds_left-quiet k l.peers few))
          (λ l' empty.
            subst (λ ids. Leads lost P (record y { timer = l'; expired = ids }))
              (sym (
                append_assoc already (due_ids (tick_nodes l.peers)) (map (λ p. p.id) l₁.peers)
                ∙ ap (λ x. already ++ x)
                    (ap (λ ps. due_ids (tick_nodes l.peers) ++ map (λ (p : Peer). p.id) ps) kept
                      ∙ ids-quiet l.peers)))
              (next l' empty)))
