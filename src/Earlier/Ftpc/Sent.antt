-- ===== src/Earlier/Ftpc/Sent.antt =====
-- What the earlier file client sends after its first packet.
use reliable_udp.Base.{
  Bool-cases, dec_lt, List, [], ap, arith, drop, false, inl, inr, length, length-append,
  length-drop, ltb, ltb→ge, ltb→lt, refl, suc, sym, take, take-append-drop, true, ℕ, ◌++◌, ◌+◌,
  ◌==◌, ◌∙◌, ◌∷◌, ◌≡◌, ◌≤◌, ◌⊎◌,
}
use reliable_udp.Earlier.Blocks.{block_count, blocks, cut}
use reliable_udp.Earlier.Ftpc.{
  Ftpc, FtpcOutput, Signal, after_first, flag_after, ftpc_loop, ftpc_round, send, send_block,
  status, to_tcpdc,
}
use reliable_udp.Earlier.Memory.{put_at}
use reliable_udp.Outcome.{Outcome, exited, fault, running, sends_first, then_on, then_on-idle}

abbrev pub requests : List (List ℕ) → List FtpcOutput
requests [] = []
requests (b ∷ bs) = to_tcpdc b ∷ requests bs

abbrev pub to_send : Ftpc → List FtpcOutput
to_send c = requests (blocks c.unread)

-- `bytes_sent` counts just what is not unread, beyond the first packet of a short file.
pub record Counts (c : Ftpc) : Type 0 where
  pub enough : c.file_size ≤ c.bytes_sent + length c.unread
  pub exact : (length c.unread ≡ 0) ⊎ (c.file_size ≡ c.bytes_sent + length c.unread)

pub after_first-Counts :
    (stack name file : List ℕ) (unset : ℕ) → Counts (after_first stack name file unset)
unfolding after_first
after_first-Counts stack name file unset = record {
  enough = omega (arith, length-drop 976 file);
  exact = elim (dec_lt 976 (length file)) [
    | yes long ↦ inr (omega (arith, length-drop 976 file))
    | no short ↦ inl (omega (arith, length-drop 976 file))
  ];
}

-- The state after a block was sent.
abbrev pub after_block : Ftpc → ℕ → Ftpc
after_block c flag = record c {
  client_buffer = put_at 0 (take 1000 c.unread) c.client_buffer;
  unread = drop 1000 c.unread;
  bytes_sent = c.bytes_sent + length (take 1000 c.unread);
  flag_buffer = flag;
}

length-parts : (xs : List ℕ) → length (take 1000 xs) + length (drop 1000 xs) ≡ length xs
length-parts xs =
    sym (length-append (take 1000 xs) (drop 1000 xs)) ∙ ap length (take-append-drop 1000 xs)

pub after_block-Counts : (c : Ftpc) (flag : ℕ) → Counts c → Counts (after_block c flag)
after_block-Counts c flag v = record {
  enough = omega (arith, v.enough, length-parts c.unread);
  exact = elim v.exact [
    | inl nothing ↦ inl (omega (arith, length-parts c.unread))
    | inr rest ↦ inr (omega (arith, length-parts c.unread))
  ];
}

pub flagged-Counts : (c : Ftpc) (flag : ℕ) → Counts c → Counts (record c { flag_buffer = flag })
flagged-Counts c flag v = record { enough = v.enough; exact = v.exact }

pub done-to_send : (c : Ftpc) → Counts c → ltb c.bytes_sent c.file_size ≡ false → [] ≡ to_send c
unfolding cut
done-to_send c v h =
    ap (λ k. requests (cut k c.unread)) {x = 0} {y = block_count c.unread}
      (omega (arith, v.exact, ltb→ge c.bytes_sent c.file_size h))

pub more-to_send :
    (c : Ftpc)
    → Counts c
    → ltb c.bytes_sent c.file_size ≡ true
    → to_tcpdc (take 1000 c.unread) ∷ requests (blocks (drop 1000 c.unread)) ≡ to_send c
unfolding cut
more-to_send c v h =
    ap (λ k. requests (cut k c.unread)) {x = suc (block_count (drop 1000 c.unread))}
      {y = block_count c.unread}
      (omega (arith, v.enough, ltb→lt c.bytes_sent c.file_size h, length-drop 1000 c.unread))

-- Some `sendto` fails.
abbrev pub SomeFails : List Signal → Type 0
SomeFails [] = ⊥
SomeFails (s ∷ ss) = (s.sends ≡ false) ⊎ SomeFails ss

-- What was sent and what is still to be sent, and how the client may have exited.
abbrev pub Accounts : Type 0 → List FtpcOutput → Outcome Ftpc FtpcOutput → Type 0
Accounts Fails all (running c os) = (os ++ to_send c ≡ all) × Counts c
Accounts Fails all (exited os) =
    (os ≡ all)
    ⊎ ((sent rest : List FtpcOutput) × (sent ++ rest ≡ all)
        × (os ≡ sent ++ (status 5 ∷ []))
        × Fails)
Accounts Fails all fault = ⊥

Accounts-weaken :
    (P Q : Type 0) (all : List FtpcOutput) (o : Outcome Ftpc FtpcOutput)
    → (P → Q)
    → Accounts P all o
    → Accounts Q all o
Accounts-weaken P Q all (running c os) f a = a
Accounts-weaken P Q all (exited os) f (inl e) = inl e
Accounts-weaken P Q all (exited os) f (inr (sent, rest, e, is, p)) = inr (sent, rest, e, is, f p)
Accounts-weaken P Q all fault f a = a

Accounts-first :
    (P : Type 0) (x : FtpcOutput) (all : List FtpcOutput) (o : Outcome Ftpc FtpcOutput)
    → Accounts P all o
    → Accounts P (x ∷ all) (sends_first (x ∷ []) o)
unfolding sends_first
Accounts-first P x all (running c os) (e, v) = (ap (◌∷◌ x) e, v)
Accounts-first P x all (exited os) (inl e) = inl (ap (◌∷◌ x) e)
Accounts-first P x all (exited os) (inr (sent, rest, e, is, p)) =
    inr (x ∷ sent, rest, ap (◌∷◌ x) e, ap (◌∷◌ x) is, p)
Accounts-first P x all fault a = a

Accounts-then :
    (P Q : Type 0) (x : FtpcOutput) (all : List FtpcOutput) (c : Ftpc)
    (next : Ftpc → Outcome Ftpc FtpcOutput)
    → (P → Q)
    → Accounts P all (next c)
    → Accounts Q (x ∷ all) (then_on (running c (x ∷ [])) next)
unfolding then_on
Accounts-then P Q x all c next f a =
    Accounts-weaken P Q (x ∷ all) (sends_first (x ∷ []) (next c)) f
      (Accounts-first P x all (next c) a)

-- A round of the loop in each of its three cases.
pub round-idle :
    (c : Ftpc) (s : Signal)
    → (flag_after s.flag c.flag_buffer == 1) ≡ false
    → ftpc_round c s ≡ running (record c { flag_buffer = flag_after s.flag c.flag_buffer }) []
unfolding ftpc_round
round-idle c s h = rw h

pub round-sends :
    (c : Ftpc) (s : Signal)
    → (flag_after s.flag c.flag_buffer == 1) ≡ true
    → s.sends ≡ true
    → ftpc_round c s
      ≡ running
          (after_block c (flag_after s.flag c.flag_buffer))
          (to_tcpdc (take 1000 c.unread) ∷ [])
unfolding ftpc_round send_block send
round-sends c s h e = rw (h, e)

round-fails :
    (c : Ftpc) (s : Signal)
    → (flag_after s.flag c.flag_buffer == 1) ≡ true
    → s.sends ≡ false
    → ftpc_round c s ≡ exited (status 5 ∷ [])
unfolding ftpc_round send_block send
round-fails c s h e = rw (h, e)

-- Whatever signals come, and whichever `sendto` fails: what the client has sent and what it has
-- still to send are the blocks of the file that were not read; it exits when all is sent, or, with
-- status 5 behind the blocks sent so far, only if a `sendto` failed.
pub ftpc_loop-Accounts :
    (ss : List Signal) (c : Ftpc) → Counts c → Accounts (SomeFails ss) (to_send c) (ftpc_loop c ss)
unfolding ftpc_loop
ftpc_loop-Accounts [] c v = elim (Bool-cases (ltb c.bytes_sent c.file_size)) [
  | inl more ↦ rw more (refl, v)
  | inr done ↦ rw done (inl (done-to_send c v done))
]
ftpc_loop-Accounts (s ∷ ss) c v = elim (Bool-cases (ltb c.bytes_sent c.file_size)) [
  | inr done ↦ rw done (inl (done-to_send c v done))
  | inl more ↦ rw more (elim (Bool-cases (flag_after s.flag c.flag_buffer == 1)) [
    | inr idle ↦
        let c' : Ftpc = record c { flag_buffer = flag_after s.flag c.flag_buffer } in
        rw (round-idle c s idle) (
          rw (then_on-idle c' (λ t. ftpc_loop t ss)) (
            Accounts-weaken (SomeFails ss) (SomeFails (s ∷ ss)) (to_send c) (ftpc_loop c' ss) inr
              (ftpc_loop-Accounts ss c' (flagged-Counts c (flag_after s.flag c.flag_buffer) v))))
    | inl go ↦ elim (Bool-cases s.sends) [
      | inr fails ↦
          rw (round-fails c s go fails)
            (unfold then_on in inr ([], to_send c, refl, refl, inl fails))
      | inl sends ↦
          let c' : Ftpc = after_block c (flag_after s.flag c.flag_buffer) in
          rw (round-sends c s go sends, ← more-to_send c v more)
            (Accounts-then (SomeFails ss) (SomeFails (s ∷ ss)) (to_tcpdc (take 1000 c.unread))
              (to_send c') c' (λ t. ftpc_loop t ss) inr
              (ftpc_loop-Accounts ss c' (after_block-Counts c (flag_after s.flag c.flag_buffer) v)))
    ]
  ])
]
