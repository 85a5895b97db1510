-- ===== src/EndToEnd/Overrun.antt =====
-- The window of the sending daemon, tcpdclient.c, and a file client that obeys every signal.
use reliable_udp.Base.{
  List, [], ap, arith, drop, get_elem?, length, length-take, length-drop, refl, replicate, some,
  subst, suc, sym, take, ◌-◌, zero, ℕ, ◌*◌, ◌++◌, ◌+◌, ◌<◌, ◌∙◌, ◌∷◌, ◌≡◌, ◌≢◌, ◌≤◌,
}
use reliable_udp.Client.{Client, ClientEvent, client_run, from_troll, start_client}
use reliable_udp.Client.Invariant.{Holds, start_client-Holds}
use reliable_udp.Client.Sent.{InOrder}
use reliable_udp.Crc.{checksum_of}
use reliable_udp.EndToEnd.Numbers.{transfer-numbered}
use reliable_udp.EndToEnd.Signals.{Follow, Obeys, Overruns, acked_alone, burst, locals, overflows}
use reliable_udp.FtpClient.{FtpClient, ftp_client_run, header_packet, start_ftp_client}
use reliable_udp.FtpClient.Transfer.{ftp_client_run_goes, full_chunks, length-chunks, transfer}
use reliable_udp.Outcome.{fault, running}
use reliable_udp.Packet.{Packet, PacketData}
use reliable_udp.Rto.{Timeval}

drop-get :
    {A : Type 0} (xs : List A) (i : ℕ)
    → i < length xs
    → (x : A) × (get_elem? xs i ≡ some x) × (drop i xs ≡ x ∷ drop (i + 1) xs)
drop-get [] i h = absurd (omega arith)
drop-get (x ∷ xs) zero h = (x, refl, refl)
drop-get (x ∷ xs) (suc i) h =
    let (y, at, e) = drop-get xs i (omega arith) in
    (y, at, e ∙ ap (λ j. y ∷ drop j (x ∷ xs)) {x = suc (i + 1)} {y = suc i + 1} (omega arith))

-- Packet `n` of a transfer and the `k - 1` after it.
abbrev pub section_of : List PacketData → ℕ → ℕ → List PacketData
section_of all n k = take k (drop n all)

-- The packets 0 and 1, each with a reply after it, and then the packets 2 to 22. The events between
-- two replies have one time.
abbrev pub overrun_events :
    List PacketData
    → (ℕ → Timeval)
    → Packet
    → Packet
    → Packet
    → Packet
    → List (Timeval × ClientEvent)
overrun_events all time reply₀ next₀ reply₁ next₁ =
    locals (time 0) (section_of all 0 1)
    ++ ((time 1, from_troll reply₀ next₀)
        ∷ (locals (time 2) (section_of all 1 1)
            ++ ((time 3, from_troll reply₁ next₁)
                ∷ (locals (time 4) (section_of all 2 20)
                    ++ locals (time 5) (section_of all 22 1)))))

-- The packet carries its checksum and acknowledges the packet with the number.
abbrev pub IsAck : Packet → ℕ → Type 0
IsAck p s =
    (checksum_of p.packetdata ≡ p.checksum)
    × (p.packetdata.ack ≡ 1)
    × (p.packetdata.finack ≢ 1)
    × (p.packetdata.ackseq ≡ s)

module _ (all : List PacketData)
    (numbered : (i : ℕ) (d : PacketData) → get_elem? all i ≡ some d → d.sequence_num ≡ i)
    (destaddr : ℕ) where
  section_of-Follow : (k n : ℕ) → n + k ≤ length all → Follow all n (section_of all n k)
  section_of-Follow zero n h = tt
  section_of-Follow (suc k) n h =
      let (d, at, e) = drop-get all n (omega arith) in
      rw e (at, numbered n d at, section_of-Follow k (n + 1) (omega arith))

  length-section_of : (k n : ℕ) → n + k ≤ length all → length (section_of all n k) ≡ k
  length-section_of k n h = length-take k (drop n all) (omega (arith, length-drop n all))

  burst_section :
      (k : ℕ) (rest : List (Timeval × ClientEvent)) (n unused : ℕ) (c : Client) (now : Timeval)
      → n + k ≤ length all
      → Holds all destaddr n c
      → c.window_pointer + k ≤ 20
      → (c.window_pointer + k - 18) < unused + (c.window_pointer - 18)
      → ((c' : Client) (left : ℕ)
          → Holds all destaddr (n + k) c'
          → c'.window_pointer ≡ c.window_pointer + k
          → unused + (c.window_pointer - 18) ≤ left + (c'.window_pointer - 18)
          → Overruns all destaddr rest (n + k) c' left)
      → Overruns all destaddr (locals now (section_of all n k) ++ rest) n c unused
  burst_section k rest n unused c now inside v h free next =
      let same = length-section_of k n inside in
      burst all destaddr (section_of all n k) rest n unused c now v (section_of-Follow k n inside)
        (omega arith) (omega arith)
        (λ c' left v' p enough.
          subst (λ m. Overruns all destaddr rest (n + m) c' left) (sym same)
            (next c' left (subst (λ m. Holds all destaddr (n + m) c') same v') (omega arith)
              enough))

  overflows_section :
      (n unused : ℕ) (c : Client) (now : Timeval)
      → n + 1 ≤ length all
      → 20 ≤ c.window_pointer
      → 0 < unused
      → Overruns all destaddr (locals now (section_of all n 1)) n c unused
  overflows_section n unused c now inside h some_left =
      let (d, at, e) = drop-get all n (omega arith) in
      rw e (overflows all destaddr c now d n unused (at, numbered n d at, tt) h some_left)

  -- With the window empty and three signals left, 20 packets fill the window and the next one is
  -- written behind it.
  third_part :
      (time : ℕ → Timeval) (c : Client) (unused : ℕ)
      → Holds all destaddr 2 c
      → c.window_pointer ≡ 0
      → 23 ≤ length all
      → 3 ≤ unused
      → Overruns all destaddr
          (locals (time 4) (section_of all 2 20) ++ locals (time 5) (section_of all 22 1))
          2
          c
          unused
  third_part time c unused v p long enough =
      burst_section 20 _ 2 unused c (time 4) (omega arith) v (omega arith) (omega arith)
        (λ c' left v' p' m.
          overflows_section 22 left c' (time 5) (omega arith) (omega arith) (omega arith))

  second_part :
      (time : ℕ → Timeval) (reply next : Packet) (c : Client) (unused : ℕ)
      → IsAck reply 1
      → Holds all destaddr 1 c
      → c.window_pointer ≡ 0
      → 23 ≤ length all
      → 2 ≤ unused
      → Overruns all destaddr
          (locals (time 2) (section_of all 1 1)
            ++ ((time 3, from_troll reply next)
                ∷ (locals (time 4) (section_of all 2 20) ++ locals (time 5) (section_of all 22 1))))
          1
          c
          unused
  second_part time reply next c unused (r, k, f, s) v p long enough =
      burst_section 1 _ 1 unused c (time 2) (omega arith) v (omega arith) (omega arith)
        (λ c₁ l₁ v₁ p₁ m₁.
          acked_alone all destaddr _ 2 l₁ c₁ (time 3) reply next v₁ (omega arith) r k f
            (omega arith) (λ c₂ v₂ p₂. third_part time c₂ (l₁ + 1) v₂ p₂ long (omega arith)))

  zero_pointer : (unset : Timeval) → (start_client unset).window_pointer ≡ 0
  unfolding start_client
  zero_pointer unset = refl

  overruns :
      (unset : Timeval) (time : ℕ → Timeval) (reply₀ next₀ reply₁ next₁ : Packet)
      → 23 ≤ length all
      → IsAck reply₀ 0
      → IsAck reply₁ 1
      → Overruns all destaddr
          (overrun_events all time reply₀ next₀ reply₁ next₁)
          0
          (start_client unset)
          1
  overruns unset time reply₀ next₀ reply₁ next₁ long (r₀, k₀, f₀, s₀) a₁ =
      burst_section 1 _ 0 1 (start_client unset) (time 0) (omega arith)
        (start_client-Holds all destaddr unset) (omega (arith, zero_pointer unset))
        (omega (arith, zero_pointer unset))
        (λ c₁ l₁ v₁ p₁ m₁.
          acked_alone all destaddr _ 1 l₁ c₁ (time 1) reply₀ next₀ v₁
            (omega (arith, zero_pointer unset)) r₀ k₀ f₀ (omega arith)
            (λ c₂ v₂ p₂.
              second_part time reply₁ next₁ c₂ (l₁ + 1) a₁ v₂ p₂ long
                (omega (arith, zero_pointer unset))))

length-transfer :
    (stack : PacketData) (name file : List ℕ)
    → 22 * 900 ≤ length file
    → 23 ≤ length (transfer stack name file)
unfolding transfer
length-transfer stack name file h =
    omega (arith, length-chunks (full_chunks file) (header_packet stack name file) file)

client_goes :
    (stack : PacketData) (name file : List ℕ)
    → 22 * 900 ≤ length file
    → (c : FtpClient) × (ftp_client_run (start_ftp_client stack name file) (replicate 22 0)
        ≡ running c (section_of (transfer stack name file) 1 22))
unfolding start_ftp_client transfer
client_goes stack name file h = ftp_client_run_goes 22 (start_ftp_client stack name file) h

-- For a file of at least 22 full chunks there is a run in which the file client obeys every signal
-- and the daemon writes past the window's 20 cells, whatever the times are: each of the packets 0
-- to 22 follows a signal to go on that no packet before it has used (the first one needs none), and
-- the file client sends the packets 1 to 22 for 22 such signals. Only the packets 0 and 1 are
-- acknowledged, each before the next packet.
pub overrun :
    (stack : PacketData) (name file : List ℕ) (destaddr : ℕ) (unset : Timeval) (time : ℕ → Timeval)
    (reply₀ next₀ reply₁ next₁ : Packet)
    → 22 * 900 ≤ length file
    → IsAck reply₀ 0
    → IsAck reply₁ 1
    → let all = transfer stack name file in
      let events = overrun_events all time reply₀ next₀ reply₁ next₁ in
      ((c : FtpClient) × (ftp_client_run (start_ftp_client stack name file) (replicate 22 0)
          ≡ running c (section_of all 1 22)))
      × InOrder all 0 events
      × Obeys destaddr events (start_client unset) 1
      × (client_run destaddr (start_client unset) events ≡ fault)
overrun stack name file destaddr unset time reply₀ next₀ reply₁ next₁ h a₀ a₁ =
    let all = transfer stack name file in
    let (order, obeys, ends) =
      overruns all (transfer-numbered stack name file) destaddr unset time reply₀ next₀ reply₁ next₁
        (length-transfer stack name file h) a₀ a₁ in
    (client_goes stack name file h, order, obeys, ends)
