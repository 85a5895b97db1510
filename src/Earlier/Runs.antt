-- ===== src/Earlier/Runs.antt =====
-- A run of each of the earlier daemons and of the file client from start to end.
use reliable_udp.Base.{
  take, ◌+◌, ◌^◌, List, Option, [], ap, append-nil, ap₂, subst, drop, length, pos, refl, some, sym,
  ℕ, ◌++◌, ◌<◌, ◌∙◌, ◌∷◌, ◌≡◌,
}
use reliable_udp.Earlier.Blocks.{Fills, blocks, blocks-Fills, delivered, join-blocks}
use reliable_udp.Earlier.Ftpc.{FtpcOutput, first_packet, status, to_tcpdc}
use reliable_udp.Earlier.Ftps.{ftps_run}
use reliable_udp.Earlier.Ftps.Written.{ftps_run_writes}
use reliable_udp.Earlier.Ftpc.First.{drop-first_packet, length-first_packet, signed_of-first_packet}
use reliable_udp.Earlier.Ftpc.Sent.{requests}
use reliable_udp.Earlier.Memory.{signed_of, unsigned_of}
use reliable_udp.Earlier.Tcpdc
use reliable_udp.Earlier.Tcpdc.{Arrival, TcpdcOutput, start_tcpdc, tcpdc_loop, tcpdc_run}
use reliable_udp.Earlier.Tcpdc.Sends.{Acknowledged, messages, tcpdc_loop_sends}
use reliable_udp.Earlier.Tcpdc.Start.{start_tcpdc_sends}
use reliable_udp.Earlier.Tcpds
use reliable_udp.Earlier.Tcpds.{TcpdsOutput, start_tcpds, tcpds_loop, tcpds_run}
use reliable_udp.Earlier.Tcpds.Passes.{WrapAll, for_ftps, tcpds_loop_passes}
use reliable_udp.Earlier.Tcpds.Start.{start_tcpds_passes}
use reliable_udp.Outcome.{exited, then_on-running}

-- The packets of the file client.
abbrev pub for_tcpdc : List FtpcOutput → List (List ℕ)
for_tcpdc [] = []
for_tcpdc (to_tcpdc b ∷ os) = b ∷ for_tcpdc os
for_tcpdc (status n ∷ os) = for_tcpdc os

pub for_tcpdc-requests : (bs : List (List ℕ)) → for_tcpdc (requests bs) ≡ bs
for_tcpdc-requests [] = refl
for_tcpdc-requests (b ∷ bs) = ap (◌∷◌ b) (for_tcpdc-requests bs)

messages-append : (os ps : List TcpdcOutput) → messages (os ++ ps) ≡ messages os ++ messages ps
messages-append [] ps = refl
messages-append (Tcpdc.to_troll m ∷ os) ps = ap (◌∷◌ m) (messages-append os ps)
messages-append (Tcpdc.to_copy b ∷ os) ps = messages-append os ps
messages-append (Tcpdc.data_to_timer s n ∷ os) ps = messages-append os ps
messages-append (Tcpdc.ack_to_timer a ∷ os) ps = messages-append os ps
messages-append (Tcpdc.to_ftpc f ∷ os) ps = messages-append os ps
messages-append (Tcpdc.status n ∷ os) ps = messages-append os ps

for_ftps-append : (os ps : List TcpdsOutput) → for_ftps (os ++ ps) ≡ for_ftps os ++ for_ftps ps
for_ftps-append [] ps = refl
for_ftps-append (Tcpds.to_log n ∷ os) ps = for_ftps-append os ps
for_ftps-append (Tcpds.to_ack a ∷ os) ps = for_ftps-append os ps
for_ftps-append (Tcpds.to_ftps b ∷ os) ps = ap (◌∷◌ b) (for_ftps-append os ps)

-- If the client's packets come to the earlier file server in order, it exits and has written the
-- file, followed, if the file is shorter than 976 bytes, by what the client's stack held behind it.
-- The client's buffers have their sizes and the file is shorter than 2 ^ 31 bytes.
pub packets_written :
    (stack name file : List ℕ)
    → length stack ≡ 1000
    → length name ≡ 20
    → length file < 2 ^ 31
    → ftps_run (some (first_packet stack name file)) (delivered (blocks (drop 976 file)))
      ≡ exited (file ++ drop (24 + length file) stack)
packets_written stack name file full is20 small =
    let first = first_packet stack name file in
    ftps_run_writes first (blocks (drop 976 file)) (length file)
      (length-first_packet stack name file full is20)
      (signed_of-first_packet stack name file full is20 small) (blocks-Fills file)
    ∙ ap (λ x. exited (take 976 (drop 24 first) ++ x)) (join-blocks (drop 976 file))
    ∙ ap exited (drop-first_packet stack name file full is20)

module _ (first : List ℕ) (bs : List (List ℕ)) (size : ℕ) (is1000 : length first ≡ 1000)
    (sized : signed_of (unsigned_of first) ≡ pos size) (fills : Fills 976 size bs) where
  -- If the host is known, the client's packets arrive in order, the first one has 1000 bytes and the
  -- file's size in it, the others fill it up, and each of them is followed by an acknowledgement of
  -- at least one byte, the sending daemon exits, and has given the troll one message for each
  -- packet, in order: 36 bytes of address and header, and the packet.
  pub tcpdc_run_sends :
      (gethostbyname : List ℕ → Option (List ℕ)) (host_name stack host : List ℕ) (a : Arrival)
      (arrivals : List Arrival)
      → gethostbyname host_name ≡ some host
      → a.packet ≡ some first
      → Acknowledged arrivals bs
      → (os : List TcpdcOutput) × (tcpdc_run gethostbyname host_name stack a arrivals ≡ exited os)
        × WrapAll (delivered (messages os)) (first ∷ bs)
  unfolding tcpdc_run
  tcpdc_run_sends gethostbyname host_name stack host a arrivals known packet acked =
      let (c, os, e, m, is, w, v, r, f) =
        start_tcpdc_sends gethostbyname host_name stack host first a known packet is1000 in
      let (ps, e', ws) = tcpdc_loop_sends bs arrivals [] c 976 size v r (f ∙ sized) acked fills in
      (
        os ++ ps,
        then_on-running (start_tcpdc gethostbyname host_name stack a) (λ t. tcpdc_loop t arrivals) c
            os ps e (ap (tcpdc_loop c) (sym (append-nil arrivals)) ∙ e'),
        subst (λ x. WrapAll (delivered x) (first ∷ bs))
            (sym (messages-append os ps ∙ ap (λ x. x ++ messages ps) is)) (w, ws),
      )

  pub tcpds_run_passes :
      (n : List ℕ) (ns : List (List ℕ))
      → WrapAll (delivered (n ∷ ns)) (first ∷ bs)
      → (os : List TcpdsOutput) × (tcpds_run (some n) (delivered ns) ≡ exited os)
        × (for_ftps os ≡ first ∷ bs)
  unfolding tcpds_run
  tcpds_run_passes n ns ((front, is36, is), ws) =
      let (s, os, e, passed, full, r, f) = start_tcpds_passes front first is36 is1000 in
      let (ps, e', passed', acks) =
        tcpds_loop_passes bs (delivered ns) [] s 976 size full r (f ∙ sized) ws fills in
      (
        os ++ ps,
        then_on-running (start_tcpds (some n)) (λ t. tcpds_loop t (delivered ns)) s os ps
            (ap start_tcpds is ∙ e) (ap (tcpds_loop s) (sym (append-nil (delivered ns))) ∙ e'),
        for_ftps-append os ps ∙ ap₂ (λ x y. x ++ y) passed passed',
      )
