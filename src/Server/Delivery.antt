-- ===== src/Server/Delivery.antt =====
-- What the receiving daemon passes to the file server: the packets of the transfer, in order, each
-- once, whatever the network loses, repeats, delays or reorders.
use reliable_udp.Base.{
  ==→eq, Bool, Bool-cases, List, Option, [], ap, append-nil, arith, false, get_elem?, inl, inr, leb,
  length-set, ltb, none, refl, seq_after, some, some_inj, subst, suc, sym, take, true, zero, ℕ,
  ◌&&◌, ◌++◌, ◌+◌, ◌==◌, ◌∙◌, ◌∷◌, ◌≡◌, ◌≤◌,
}
use reliable_udp.Outcome.{Outcome, exited, fault, running, sends_first}
use reliable_udp.Packet.{Packet, PacketData}
use reliable_udp.Server.{
  Server, ServerOutput, acknowledge, deliver, deliver_at, deliver_found, deliver_slot, find_low,
  find_low_in_buffer, find_low_index, finish, hand_out, seq_of, to_daemon, to_ftps, to_log,
}
use reliable_udp.Server.Invariant.{Buffered, IsGenuine, IsReady}
use reliable_udp.Server.Search.{
  find_low_in_buffer-le, find_low_in_buffer-some, find_low_index-holds, holds_seq-set-none,
}

-- What goes to the file server, of all that is sent.
unfoldable pub ftps_data : List ServerOutput → List PacketData
ftps_data [] = []
ftps_data (to_ftps p ∷ os) = p.packetdata ∷ ftps_data os
ftps_data (to_log bytes ∷ os) = ftps_data os
ftps_data (to_daemon p ∷ os) = ftps_data os

pub ftps_data-append :
    (xs ys : List ServerOutput) → ftps_data (xs ++ ys) ≡ ftps_data xs ++ ftps_data ys
unfolding ftps_data
ftps_data-append [] ys = refl
ftps_data-append (to_ftps p ∷ xs) ys = ap (◌∷◌ p.packetdata) (ftps_data-append xs ys)
ftps_data-append (to_log bytes ∷ xs) ys = ftps_data-append xs ys
ftps_data-append (to_daemon p ∷ xs) ys = ftps_data-append xs ys

-- How far the file server is: the packets before this number have gone out.
abbrev pub progress : Server → ℕ
progress s = seq_after s.last_sent

-- The packets from number `m` up to `n` go to the file server.
abbrev pub Passes : List PacketData → ℕ → ℕ → List PacketData → Type 0
Passes transfer m n ds = (m ≤ n) × (take m transfer ++ ds ≡ take n transfer)

-- The outcome of rounds from a state with `m` packets gone out and `received` never set.
abbrev pub IsFaithful : List PacketData → ℕ → Packet → Outcome Server ServerOutput → Type 0
IsFaithful transfer m received (running s os) =
    ((lap : Bool) × Buffered transfer lap s)
    × (s.received ≡ received)
    × Passes transfer m (progress s) (ftps_data os)
IsFaithful transfer m received (exited os) =
    (n : ℕ) × (d : PacketData) × (ds : List PacketData) × (get_elem? transfer n ≡ some d)
    × (d.fin ≡ 1)
    × Passes transfer m (suc n) ds
    × (ftps_data os ≡ ds ++ received.packetdata ∷ [])
IsFaithful transfer m received fault = Unit

take-suc :
    {A : Type 0} (n : ℕ) (xs : List A) (x : A)
    → get_elem? xs n ≡ some x
    → take n xs ++ x ∷ [] ≡ take (suc n) xs
take-suc zero [] x e = absurd (cc)
take-suc zero (y ∷ ys) x e = ground arith
take-suc (suc n) [] x e = absurd (cc)
take-suc (suc n) (y ∷ ys) x e = ap (◌∷◌ y) (take-suc n ys x e)

module _ (transfer : List PacketData) (destaddr : ℕ) where
  -- What the searches find is a packet of the transfer with the number that was looked for.
  found-IsGenuine :
      (lap : Bool) (s : Server) (n i cell : ℕ) (p : Packet)
      → IsReady transfer lap s
      → find_low_in_buffer s.buffer n ≡ some i
      → find_low_index s.window n ≡ some cell
      → get_elem? s.buffer i ≡ some p
      → IsGenuine transfer p.packetdata
  found-IsGenuine true s n i cell p r found index e = r.all_filled i p refl e
  found-IsGenuine false s n i cell p r found index e =
      let (j, q, lt, at, is) =
        r.buffered.waiting n refl (find_low_index-holds s.window n cell index) in
      let le : i ≤ j = find_low_in_buffer-le s.buffer n i j q found at is in
      r.buffered.below i p (omega arith) e

  acknowledge-Buffered :
      (lap : Bool) (s : Server) (p : Packet) (cell : ℕ)
      → Buffered transfer lap s
      → Buffered transfer lap (acknowledge destaddr s p cell).0
  unfolding acknowledge
  acknowledge-Buffered lap s p cell v = record {
    length_buffer = v.length_buffer;
    length_window = length-set s.window cell none ∙ v.length_window;
    head_in = v.head_in;
    below = v.below;
    beyond = v.beyond;
    waiting = λ n l h. v.waiting n l (holds_seq-set-none s.window cell n h);
  }

  Passes-one :
      (s : Server) (p : Packet) (n : ℕ)
      → IsGenuine transfer p.packetdata
      → seq_of p ≡ progress s
      → n ≡ suc (progress s)
      → Passes transfer (progress s) n (p.packetdata ∷ [])
  Passes-one s p n g e e' = rw e' (
    omega arith,
    take-suc (progress s) transfer p.packetdata
        (subst (λ k. get_elem? transfer k ≡ some p.packetdata) e g),
  )

  deliver_at-IsFaithful :
      (lap : Bool) (s : Server) (p : Packet) (cell : ℕ)
      → Buffered transfer lap s
      → IsGenuine transfer p.packetdata
      → seq_of p ≡ progress s
      → IsFaithful transfer (progress s) s.received (deliver_at destaddr s p cell)
  unfolding deliver_at
  deliver_at-IsFaithful lap s p cell v g e =
      elim (Bool-cases (ltb (seq_of p) 1000 && leb p.packetdata.bytes_in_packet 900)) [
        | inr out ↦ rw out tt
        | inl fits ↦ elim (Bool-cases (p.packetdata.fin == 1)) [
          | inl last ↦
              rw (fits, last)
                (
                  progress s,
                  p.packetdata,
                  p.packetdata ∷ [],
                  subst (λ k. get_elem? transfer k ≡ some p.packetdata) e g,
                  ==→eq p.packetdata.fin 1 last,
                  Passes-one s p (suc (progress s)) g e refl,
                  unfold hand_out finish ftps_data in refl,
                )
          | inr more ↦
              rw (fits, more)
                (
                  (lap, acknowledge-Buffered lap s p cell v),
                  unfold acknowledge in refl,
                  unfold acknowledge hand_out ftps_data in
                      Passes-one s p (seq_of p + 1) g e (omega arith),
                )
        ]
      ]

  -- Nothing goes out.
  pub idle-IsFaithful :
      (lap : Bool) (s : Server)
      → Buffered transfer lap s
      → IsFaithful transfer (progress s) s.received (running s [])
  unfolding ftps_data
  idle-IsFaithful lap s v = ((lap, v), refl, (omega arith, append-nil (take (progress s) transfer)))

  deliver_slot-IsFaithful :
      (lap : Bool) (s : Server) (i cell : ℕ) (slot : Option Packet)
      → IsReady transfer lap s
      → find_low_in_buffer s.buffer (progress s) ≡ some i
      → find_low_index s.window (progress s) ≡ some cell
      → get_elem? s.buffer i ≡ slot
      → IsFaithful transfer (progress s) s.received (deliver_slot destaddr s slot cell)
  unfolding deliver_slot
  deliver_slot-IsFaithful lap s i cell none r f x at = tt
  deliver_slot-IsFaithful lap s i cell (some p) r f x at =
      let (q, at', is) = find_low_in_buffer-some s.buffer (progress s) i f in
      deliver_at-IsFaithful lap s p cell r.buffered
        (found-IsGenuine lap s (progress s) i cell p r f x at)
        (ap seq_of (some_inj (sym at ∙ at')) ∙ is)

  deliver_found-IsFaithful :
      (lap : Bool) (s : Server) (found index : Option ℕ)
      → IsReady transfer lap s
      → find_low_in_buffer s.buffer (progress s) ≡ found
      → find_low_index s.window (progress s) ≡ index
      → IsFaithful transfer (progress s) s.received (deliver_found destaddr s found index)
  unfolding deliver_found
  deliver_found-IsFaithful lap s none index r f x = tt
  deliver_found-IsFaithful lap s (some i) none r f x = tt
  deliver_found-IsFaithful lap s (some i) (some cell) r f x =
      deliver_slot-IsFaithful lap s i cell (get_elem? s.buffer i) r f x refl

  pub deliver-IsFaithful :
      (lap : Bool) (s : Server)
      → IsReady transfer lap s
      → IsFaithful transfer (progress s) s.received (deliver destaddr s)
  unfolding deliver
  deliver-IsFaithful lap s r = elim (Bool-cases (find_low s.window == progress s)) [
    | inl due ↦ rw due (
        let e = ==→eq (find_low s.window) (progress s) due in
        rw e (
          deliver_found-IsFaithful lap s (find_low_in_buffer s.buffer (progress s))
            (find_low_index s.window (progress s)) r refl refl))
    | inr wait ↦ rw wait (idle-IsFaithful lap s r.buffered)
  ]

  -- Acknowledgements sent before change nothing.
  pub sends_first-IsFaithful :
      (m : ℕ) (received : Packet) (os : List ServerOutput) (o : Outcome Server ServerOutput)
      → ftps_data os ≡ []
      → IsFaithful transfer m received o
      → IsFaithful transfer m received (sends_first os o)
  unfolding sends_first
  sends_first-IsFaithful m received os (running s ps) e (b, r, (le, t)) =
      (b, r, (le, rw (ftps_data-append os ps, e) t))
  sends_first-IsFaithful m received os (exited ps) e (n, d, ds, at, is, ends, o) =
      (n, d, ds, at, is, ends, rw (ftps_data-append os ps, e) o)
  sends_first-IsFaithful m received os fault e f = tt
