-- ===== src/Earlier/Ftpc/Exits.antt =====
-- When the earlier file client exits.
use reliable_udp.Base.{
  Bool-cases, List, [], ap, arith, if◌then◌else◌, inl, inr, length-drop, ltb, ltb→lt, take, true, ℕ,
  ◌+◌, ◌==◌, ◌∙◌, ◌∷◌, ◌≡◌, ◌≤◌,
}
use reliable_udp.Earlier.Blocks.{block_count}
use reliable_udp.Earlier.Ftpc.{Ftpc, Signal, flag_after, ftpc_loop, ftpc_round, to_tcpdc}
use reliable_udp.Earlier.Ftpc.Sent.{
  Counts, after_block, after_block-Counts, done-to_send, flagged-Counts, more-to_send, round-idle,
  round-sends, to_send,
}
use reliable_udp.Outcome.{exited, then_on-idle, then_on-running}

-- The rounds that find the flag set.
abbrev pub go_rounds : ℕ → List Signal → ℕ
go_rounds old [] = 0
go_rounds old (s ∷ ss) =
    (if flag_after s.flag old == 1 then 1 else 0) + go_rounds (flag_after s.flag old) ss

abbrev pub AllSucceed : List Signal → Type 0
AllSucceed [] = Unit
AllSucceed (s ∷ ss) = (s.sends ≡ true) × AllSucceed ss

-- With as many rounds that find the flag set as blocks are left, however many others come between
-- them, and no failure of `sendto`, the client sends all blocks and exits.
pub ftpc_loop_exits :
    (ss : List Signal) (c : Ftpc)
    → Counts c
    → AllSucceed ss
    → block_count c.unread ≤ go_rounds c.flag_buffer ss
    → ftpc_loop c ss ≡ exited (to_send c)
unfolding ftpc_loop
ftpc_loop_exits [] c v succeed h = elim (Bool-cases (ltb c.bytes_sent c.file_size)) [
  | inl more ↦ absurd (omega (arith, v.enough, ltb→lt c.bytes_sent c.file_size more))
  | inr done ↦ rw done (ap exited (done-to_send c v done))
]
ftpc_loop_exits (s ∷ ss) c v (sends, succeed) h = elim (Bool-cases (ltb c.bytes_sent c.file_size)) [
  | inr done ↦ rw done (ap exited (done-to_send c v done))
  | inl more ↦ rw more (elim (Bool-cases (flag_after s.flag c.flag_buffer == 1)) [
    | inr idle ↦
        let c' : Ftpc = record c { flag_buffer = flag_after s.flag c.flag_buffer } in
        rw (round-idle c s idle) (
          then_on-idle c' (λ t. ftpc_loop t ss)
          ∙ ftpc_loop_exits ss c' (flagged-Counts c (flag_after s.flag c.flag_buffer) v) succeed
              (omega (arith, (rw idle at h))))
    | inl go ↦
        let c' : Ftpc = after_block c (flag_after s.flag c.flag_buffer) in
        then_on-running (ftpc_round c s) (λ t. ftpc_loop t ss) c'
          (to_tcpdc (take 1000 c.unread) ∷ []) (to_send c') (round-sends c s go sends)
          (ftpc_loop_exits ss c' (after_block-Counts c (flag_after s.flag c.flag_buffer) v) succeed
            (omega (arith, length-drop 1000 c.unread, (rw go at h))))
        ∙ ap exited (more-to_send c v more)
  ])
]
