-- ===== src/FtpClient/Failures.antt =====
-- The file client's loop, whichever calls fail.
use reliable_udp.Base.{
  Bool, Bool-cases, List, [], ap, append_assoc, arith, dec_lt, false, if◌then◌else◌, inl, inr,
  length, length-drop, length-take, lt→ltb, ltb, refl, suc, sym, take, take-all, true, zero, ℕ,
  ◌++◌, ◌<◌, ◌==◌, ◌∙◌, ◌∷◌, ◌≡◌, ◌≤◌,
}
use reliable_udp.FtpClient.{
  FtpClient, FtpClientEvent, Round, chunk_packet, chunk_round, exits, fin_packet, send_fin,
  ftp_client_rounds, heard, select_error, signal_round, spoiled, stop_flag, then_waits, waits,
}
use reliable_udp.FtpClient.Transfer.{after_chunk, chunks, chunks-more, full_chunks, to_send}
use reliable_udp.Packet.{PacketData}

-- What the client has sent and what is still to be sent. It exits with status 0 once it has sent
-- all, with 1 or 2 with some packets left, and spoils memory only where that behind the packet is
-- in use.
abbrev pub Accounts : Bool → List PacketData → Round → Type 0
Accounts spare all (waits c os) = os ++ to_send c ≡ all
Accounts spare all (exits zero os) = os ≡ all
Accounts spare all (exits (suc n) os) = (n < 2) × ((rest : List PacketData) × (os ++ rest ≡ all))
Accounts spare all spoiled = spare ≡ false

chunk_round-last :
    (spare fin_ok : Bool) (c : FtpClient)
    → length c.unread < 900
    → chunk_round spare true fin_ok c
      ≡ send_fin spare fin_ok (chunk_packet c.sending (take 900 c.unread))
unfolding chunk_round
chunk_round-last spare fin_ok c h =
    rw (lt→ltb (length (take 900 c.unread)) 900 (rw (take-all 900 c.unread (omega arith)) h))

chunk_round-more :
    (spare fin_ok : Bool) (c : FtpClient)
    → 900 ≤ length c.unread
    → chunk_round spare true fin_ok c
      ≡ waits (after_chunk c) (chunk_packet c.sending (take 900 c.unread) ∷ [])
unfolding chunk_round
chunk_round-more spare fin_ok c h = rw (ap (λ n. ltb n 900) (length-take 900 c.unread h))

send_fin-Accounts :
    (spare fin_ok : Bool) (c : FtpClient)
    → Accounts spare
        (chunks 0 c.sending c.unread)
        (send_fin spare fin_ok (chunk_packet c.sending (take 900 c.unread)))
unfolding send_fin chunks
send_fin-Accounts true true c = refl
send_fin-Accounts true false c =
    (omega arith, (fin_packet (chunk_packet c.sending (take 900 c.unread)) ∷ [], refl))
send_fin-Accounts false fin_ok c = refl

chunk_round-Accounts :
    (spare ok fin_ok : Bool) (c : FtpClient)
    → Accounts spare (to_send c) (chunk_round spare ok fin_ok c)
chunk_round-Accounts spare true fin_ok c = elim (dec_lt (length c.unread) 900) [
  | yes small ↦
      let none_left : 0 ≡ full_chunks c.unread = omega arith in
      rw (chunk_round-last spare fin_ok c small, sym none_left) (send_fin-Accounts spare fin_ok c)
  | no large ↦
      rw (chunk_round-more spare fin_ok c (omega arith))
        (sym (chunks-more c.sending c.unread (omega arith)))
]
chunk_round-Accounts spare false fin_ok c = unfold chunk_round in (omega arith, (to_send c, refl))

signal_round-Accounts :
    (spare ok fin_ok : Bool) (c : FtpClient) (stop : ℕ)
    → Accounts spare (to_send c) (signal_round spare ok fin_ok c stop)
unfolding signal_round
signal_round-Accounts spare ok fin_ok c stop = elim (Bool-cases (stop == 1)) [
  | inl sleep ↦ rw sleep refl
  | inr go ↦ rw go (chunk_round-Accounts spare ok fin_ok c)
]

then_waits-Accounts :
    (spare : Bool) (all : List PacketData) (r : Round) (next : FtpClient → Round)
    → Accounts spare all r
    → ((c : FtpClient) → Accounts spare (to_send c) (next c))
    → Accounts spare all (then_waits r next)
unfolding then_waits
then_waits-Accounts spare all (waits c os) next h k = first_then (next c) (k c)
  where
    first_then :
        (r : Round)
        → Accounts spare (to_send c) r
        → Accounts spare all (elim r [
          | waits c' ps ↦ waits c' (os ++ ps)
          | exits n ps ↦ exits n (os ++ ps)
          | spoiled ↦ spoiled
        ])
    first_then (waits c' ps) q = append_assoc os ps (to_send c') ∙ ap (λ x. os ++ x) q ∙ h
    first_then (exits zero ps) q = ap (λ x. os ++ x) q ∙ h
    first_then (exits (suc n) ps) (small, (rest, q)) =
        (small, (rest, append_assoc os ps rest ∙ ap (λ x. os ++ x) q ∙ h))
    first_then spoiled q = q
then_waits-Accounts spare all (exits zero os) next h k = h
then_waits-Accounts spare all (exits (suc n) os) next h k = h
then_waits-Accounts spare all spoiled next h k = h

-- Whatever signals come and whichever calls fail, the packets that the file client has sent and
-- those that it has still to send are together the packets that it had to send. It exits with
-- status 0 only when it has sent them all, and with 1 or 2 when it has sent a first part of them;
-- it spoils memory only if that behind the packet is in use.
pub ftp_client_rounds-Accounts :
    (spare : Bool) (stop : ℕ) (c : FtpClient) (es : List FtpClientEvent)
    → Accounts spare (to_send c) (ftp_client_rounds spare stop c es)
unfolding ftp_client_rounds
ftp_client_rounds-Accounts spare stop c [] = refl
ftp_client_rounds-Accounts spare stop c (select_error ∷ es) = (omega arith, (to_send c, refl))
ftp_client_rounds-Accounts spare stop c (heard received ok fin_ok ∷ es) =
    let stop' = stop_flag stop received in
    then_waits-Accounts spare (to_send c) (signal_round spare ok fin_ok c stop')
      (λ c'. ftp_client_rounds spare stop' c' es) (signal_round-Accounts spare ok fin_ok c stop')
      (λ c'. ftp_client_rounds-Accounts spare stop' c' es)

-- Neither `select` nor a `sendto` fails; RECV_C may.
abbrev pub AllSend : List FtpClientEvent → Type 0
AllSend [] = Unit
AllSend (select_error ∷ es) = ⊥
AllSend (heard received ok fin_ok ∷ es) = (ok ≡ true) × (fin_ok ≡ true) × AllSend es

-- The rounds in which the flag says to go on.
abbrev pub go_rounds : ℕ → List FtpClientEvent → ℕ
go_rounds stop [] = 0
go_rounds stop (select_error ∷ es) = 0
go_rounds stop (heard received ok fin_ok ∷ es) =
    let rest = go_rounds (stop_flag stop received) es in
    if stop_flag stop received == 1 then rest else suc rest

then_waits-waits :
    (c : FtpClient) (os ps : List PacketData) (next : FtpClient → Round) (r : Round)
    → r ≡ waits c os
    → next c ≡ exits 0 ps
    → then_waits r next ≡ exits 0 (os ++ ps)
unfolding then_waits
then_waits-waits c os ps next r e f = rw e (follows (next c) f)
  where
    follows :
        (r : Round)
        → r ≡ exits 0 ps
        → elim r [
          | waits c' qs ↦ waits c' (os ++ qs)
          | exits n qs ↦ exits n (os ++ qs)
          | spoiled ↦ spoiled
        ]
          ≡ exits 0 (os ++ ps)
    follows r e = rw e refl

then_waits-exits :
    (os : List PacketData) (next : FtpClient → Round) (r : Round)
    → r ≡ exits 0 os
    → then_waits r next ≡ exits 0 os
then_waits-exits os next r e = rw e (unfold then_waits in refl)

signal_round-sleeps :
    (c : FtpClient) (ok fin_ok : Bool) (stop : ℕ)
    → (stop == 1) ≡ true
    → signal_round true ok fin_ok c stop ≡ waits c []
unfolding signal_round
signal_round-sleeps c ok fin_ok stop e = rw e refl

-- The rounds that send the last chunk, and another.
signal_round-last :
    (c : FtpClient) (ok fin_ok : Bool) (stop : ℕ)
    → ok ≡ true
    → fin_ok ≡ true
    → (stop == 1) ≡ false
    → length c.unread < 900
    → signal_round true ok fin_ok c stop ≡ exits 0 (to_send c)
unfolding signal_round send_fin chunks
signal_round-last c ok fin_ok stop sends fin_sends go small =
    let none_left : 0 ≡ full_chunks c.unread = omega arith in
    rw (go, sends, fin_sends)
      (chunk_round-last true true c small
        ∙ sent
        ∙ ap (λ k. exits 0 (chunks k c.sending c.unread)) none_left)
  where
    sent :
        send_fin true true (chunk_packet c.sending (take 900 c.unread))
        ≡ exits 0 (chunks 0 c.sending c.unread)
    sent = refl

signal_round-more :
    (c : FtpClient) (ok fin_ok : Bool) (stop : ℕ)
    → ok ≡ true
    → (stop == 1) ≡ false
    → 900 ≤ length c.unread
    → signal_round true ok fin_ok c stop
      ≡ waits (after_chunk c) (chunk_packet c.sending (take 900 c.unread) ∷ [])
unfolding signal_round
signal_round-more c ok fin_ok stop sends go large =
    rw (go, sends) (chunk_round-more true fin_ok c large)

-- If neither select nor a sendto fails and the bytes behind the packet are unused, then with one
-- round that finds the signal to go on for each full chunk and one more, however many signals to
-- sleep and failures of RECV_C come between them, the file client sends all its packets and exits
-- with status 0.
pub ftp_client_rounds_exit :
    (stop : ℕ) (c : FtpClient) (es : List FtpClientEvent)
    → AllSend es
    → full_chunks c.unread < go_rounds stop es
    → ftp_client_rounds true stop c es ≡ exits 0 (to_send c)
unfolding ftp_client_rounds
ftp_client_rounds_exit stop c [] a h = absurd (omega arith)
ftp_client_rounds_exit stop c (select_error ∷ es) a h = absurd a
ftp_client_rounds_exit stop c (heard received ok fin_ok ∷ es) (sends, fin_sends, a) h =
    let stop' = stop_flag stop received in
    let next : FtpClient → Round = λ c'. ftp_client_rounds true stop' c' es in
    elim (Bool-cases (stop' == 1)) [
      | inl sleep ↦
          then_waits-waits c [] (to_send c) next _ (signal_round-sleeps c ok fin_ok stop' sleep)
            (ftp_client_rounds_exit stop' c es a (rw sleep at h))
      | inr go ↦ elim (dec_lt (length c.unread) 900) [
        | yes small ↦
            then_waits-exits (to_send c) next _
              (signal_round-last c ok fin_ok stop' sends fin_sends go small)
        | no large ↦
            then_waits-waits (after_chunk c) (chunk_packet c.sending (take 900 c.unread) ∷ [])
              (to_send (after_chunk c)) next _
              (signal_round-more c ok fin_ok stop' sends go (omega arith))
              (ftp_client_rounds_exit stop' (after_chunk c) es a
                (omega (arith, length-drop 900 c.unread, (rw go at h))))
            ∙ ap (exits 0) (sym (chunks-more c.sending c.unread (omega arith)))
      ]
    ]
