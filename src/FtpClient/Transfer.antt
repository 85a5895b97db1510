-- ===== src/FtpClient/Transfer.antt =====
-- What the file client sends, all in all.
use reliable_udp.Base.{
  Bool-cases, List, [], ap, arith, dec_lt, drop, if◌then◌else◌, inl, inr, length, length-drop,
  length-take, replicate, ◌*◌, ◌+◌, ltb, lt→ltb, refl, suc, sym, take, take-all, zero, ℕ, ◌++◌, ◌/◌,
  ◌<◌, ◌==◌, ◌∙◌, ◌∷◌, ◌≡◌, ◌≤◌,
}
use reliable_udp.FtpClient.{
  FtpClient, chunk_packet, chunk_size, fin_packet, ftp_client_run, ftp_client_step, header_packet,
  send_chunk, chunk_round, send_fin, seen, signal_round,
}
use reliable_udp.Outcome.{Outcome, exited, fault, running, then_on-goes}
use reliable_udp.Packet.{PacketData}

-- The packets from one state to the end, with `k` full chunks still to come.
unfoldable pub chunks : ℕ → PacketData → List ℕ → List PacketData
chunks zero sending unread =
    let last = chunk_packet sending (take chunk_size unread) in last ∷ fin_packet last ∷ []
chunks (suc k) sending unread =
    let next = chunk_packet sending (take chunk_size unread) in
    next ∷ chunks k next (drop chunk_size unread)

-- The number of full chunks of a file.
abbrev pub full_chunks : List ℕ → ℕ
full_chunks file = length file / 900

abbrev pub to_send : FtpClient → List PacketData
to_send c = chunks (full_chunks c.unread) c.sending c.unread

-- All packets of a transfer.
unfoldable pub transfer : PacketData → List ℕ → List ℕ → List PacketData
transfer stack name file =
    header_packet stack name file ∷ chunks (full_chunks file) (header_packet stack name file) file

-- A signal sends the next chunk, and the FIN packet with the last one.
pub send_chunk-last :
    (c : FtpClient) → length c.unread < 900 → send_chunk c ≡ exited (chunks 0 c.sending c.unread)
unfolding send_chunk chunks seen chunk_round send_fin
send_chunk-last c h =
    rw (lt→ltb (length (take 900 c.unread)) 900 (rw (take-all 900 c.unread (omega arith)) h))

pub send_chunk-more :
    (c : FtpClient)
    → 900 ≤ length c.unread
    → let next = chunk_packet c.sending (take 900 c.unread) in
      send_chunk c ≡ running (record { sending = next; unread = drop 900 c.unread }) (next ∷ [])
unfolding send_chunk seen chunk_round
send_chunk-more c h = rw (ap (λ n. ltb n 900) (length-take 900 c.unread h))

pub chunks-more :
    (sending : PacketData) (unread : List ℕ)
    → 900 ≤ length unread
    → chunks (full_chunks unread) sending unread
      ≡ chunk_packet sending (take 900 unread)
        ∷ chunks
            (full_chunks (drop 900 unread))
            (chunk_packet sending (take 900 unread))
            (drop 900 unread)
chunks-more sending unread h =
    ap (λ k. chunks k sending unread) {x = length unread / 900}
      {y = suc (length (drop 900 unread) / 900)} (omega (arith, length-drop 900 unread))
    ∙ unfold chunks in refl

-- What was sent and what is still to be sent.
abbrev pub Completes : List PacketData → Outcome FtpClient PacketData → Type 0
Completes all (running c os) = os ++ to_send c ≡ all
Completes all (exited os) = os ≡ all
Completes all fault = ⊥

send_chunk-Completes : (c : FtpClient) → Completes (to_send c) (send_chunk c)
send_chunk-Completes c = elim (dec_lt (length c.unread) 900) [
  | yes small ↦ rw (send_chunk-last c small) (ap (λ k. chunks k c.sending c.unread) (omega arith))
  | no large ↦
      rw (send_chunk-more c (omega arith)) (sym (chunks-more c.sending c.unread (omega arith)))
]

-- A control message, whichever it is.
pub ftp_client_step-Completes :
    (c : FtpClient) (stop : ℕ) → Completes (to_send c) (ftp_client_step c stop)
unfolding ftp_client_step signal_round seen send_chunk
ftp_client_step-Completes c stop = elim (Bool-cases (stop == 1)) [
  | inl sleep ↦ rw sleep refl
  | inr go ↦ rw go (send_chunk-Completes c)
]

-- The signals to go on.
abbrev pub go_signals : List ℕ → ℕ
go_signals [] = 0
go_signals (stop ∷ stops) = if stop == 1 then go_signals stops else suc (go_signals stops)

abbrev pub after_chunk : FtpClient → FtpClient
after_chunk c = record {
  sending = chunk_packet c.sending (take 900 c.unread);
  unread = drop 900 c.unread;
}

-- As many signals to go on as there are full chunks, or fewer, send that many of the chunks.
pub ftp_client_run_goes :
    (k : ℕ) (c : FtpClient)
    → k * 900 ≤ length c.unread
    → (c' : FtpClient) × (ftp_client_run c (replicate k 0)
        ≡ running c' (take k (chunks (full_chunks c.unread) c.sending c.unread)))
unfolding ftp_client_run ftp_client_step signal_round seen send_chunk
ftp_client_run_goes zero c h = (c, refl)
ftp_client_run_goes (suc k) c h =
    let next = after_chunk c in
    let (c', e) = ftp_client_run_goes k next (omega (arith, length-drop 900 c.unread)) in
    (
      c',
      then_on-goes (send_chunk c) (λ t. ftp_client_run t (replicate k 0)) next c'
            (chunk_packet c.sending (take 900 c.unread) ∷ [])
            (take k (chunks (full_chunks next.unread) next.sending next.unread))
            (send_chunk-more c (omega arith)) e
          ∙ ap (λ ds. running c' (take (suc k) ds))
              (sym (chunks-more c.sending c.unread (omega arith))),
    )

pub length-chunks :
    (k : ℕ) (sending : PacketData) (unread : List ℕ) → length (chunks k sending unread) ≡ k + 2
unfolding chunks
length-chunks zero sending unread = omega arith
length-chunks (suc k) sending unread =
    omega (arith, length-chunks k (chunk_packet sending (take 900 unread)) (drop 900 unread))
