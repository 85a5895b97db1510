-- ===== src/System/Written.antt =====
-- The file server's rounds, for a queue that comes in parts.
use mathlib.Core.Path.{fun_ext}
use reliable_udp.Base.{
  Bool-cases, List, [], ap, append-nil, append_assoc, inl, inr, leb, refl, subst, sym, take, ℕ,
  ◌++◌, ◌==◌, ◌∙◌, ◌∷◌, ◌≡◌, ◌⊎◌,
}
use reliable_udp.EndToEnd.Writing.{written-note_first}
use reliable_udp.FtpServer.{FtpServer, ftp_server_run, ftp_server_step, start_ftp_server}
use reliable_udp.Outcome.{
  Outcome, exited, fault, running, then_on, then_on-exited, then_on-idle, then_on_assoc,
}
use reliable_udp.Packet.{PacketData}

-- What the file server has read, up to now or until it closed the file.
abbrev pub Writes : FtpServer ⊎ List ℕ → List PacketData → Type 0
Writes (inl s) seen = ftp_server_run start_ftp_server seen ≡ running s []
Writes (inr bytes) seen = ftp_server_run start_ftp_server seen ≡ exited bytes

-- A round goes on with nothing but more bytes, or leaves the bytes so far.
abbrev pub Extends : List ℕ → Outcome FtpServer ℕ → Type 0
Extends written (running s os) = (os ≡ []) × ((more : List ℕ) × (written ++ more ≡ s.written))
Extends written (exited bytes) = bytes ≡ written
Extends written fault = Unit

pub ftp_server_step-Extends :
    (s : FtpServer) (d : PacketData) → Extends s.written (ftp_server_step s d)
unfolding ftp_server_step
ftp_server_step-Extends s d = elim (Bool-cases (leb d.bytes_in_packet 900)) [
  | inr long ↦ rw long tt
  | inl short ↦ elim (Bool-cases (d.fin == 1)) [
    | inl last ↦ rw (short, last) (written-note_first s d)
    | inr goes ↦
        rw (short, goes)
          (
            refl,
            (
              take d.bytes_in_packet d.contents,
              ap (λ w. w ++ take d.bytes_in_packet d.contents) (sym (written-note_first s d)),
            ),
          )
  ]
]

pub run-append :
    (s : FtpServer) (ds es : List PacketData)
    → ftp_server_run s (ds ++ es) ≡ then_on (ftp_server_run s ds) (λ t. ftp_server_run t es)
unfolding ftp_server_run
run-append s [] es = sym (then_on-idle s (λ t. ftp_server_run t es))
run-append s (d ∷ ds) es =
    ap (then_on (ftp_server_step s d)) (fun_ext (λ t. run-append t ds es))
    ∙ sym
        (then_on_assoc (ftp_server_step s d) (λ t. ftp_server_run t ds) (λ t. ftp_server_run t es))

-- What a run leaves in the file begins with what was there.
run-exits_extends :
    (s : FtpServer) (ds : List PacketData) (bytes : List ℕ)
    → ftp_server_run s ds ≡ exited bytes
    → (more : List ℕ) × (s.written ++ more ≡ bytes)
unfolding ftp_server_run
run-exits_extends s [] bytes e = absurd (cc)
run-exits_extends s (d ∷ ds) bytes e =
    goes (ftp_server_step s d) (ftp_server_step-Extends s d) (λ t. run-exits_extends t ds bytes) e
  where
    goes :
        (o : Outcome FtpServer ℕ)
        → Extends s.written o
        → ((t : FtpServer)
            → ftp_server_run t ds ≡ exited bytes
            → (more : List ℕ) × (t.written ++ more ≡ bytes))
        → then_on o (λ t. ftp_server_run t ds) ≡ exited bytes
        → (more : List ℕ) × (s.written ++ more ≡ bytes)
    goes (running t os) (quiet, (more, w)) rest e =
        let (last, w') = rest t (
          sym (
            ap (λ x. then_on (running t x) (λ t. ftp_server_run t ds)) quiet
            ∙ then_on-idle t (λ t. ftp_server_run t ds))
          ∙ e) in
        (more ++ last, sym (append_assoc s.written more last) ∙ ap (λ x. x ++ last) w ∙ w')
    goes (exited os) w rest e =
        let same : ◌≡◌ {A = Outcome FtpServer ℕ} (exited os) (exited bytes) = unfold then_on in e in
        ([], append-nil s.written ∙ sym w ∙ (cc))
    goes fault w rest e =
        let same : ◌≡◌ {A = Outcome FtpServer ℕ} fault (exited bytes) = unfold then_on in e in
        absurd (cc)

run-snoc :
    (s : FtpServer) (seen : List PacketData) (d : PacketData)
    → Writes (inl s) seen
    → ftp_server_run start_ftp_server (seen ++ d ∷ [])
      ≡ then_on (ftp_server_step s d) (λ t. running t [])
run-snoc s seen d w =
    run-append start_ftp_server seen (d ∷ [])
    ∙ ap (λ o. then_on o (λ t. ftp_server_run t (d ∷ []))) w
    ∙ then_on-idle s (λ t. ftp_server_run t (d ∷ []))
    ∙ unfold ftp_server_run in refl

-- One more packet is read.
pub Writes-running :
    (s s' : FtpServer) (os : List ℕ) (seen : List PacketData) (d : PacketData)
    → Writes (inl s) seen
    → ftp_server_step s d ≡ running s' os
    → Writes (inl s') (seen ++ d ∷ [])
Writes-running s s' os seen d w e =
    let (quiet, more) = subst (Extends s.written) e (ftp_server_step-Extends s d) in
    run-snoc s seen d w
    ∙ ap (λ o. then_on o (λ t. running t [])) (e ∙ ap (running s') quiet)
    ∙ then_on-idle s' (λ t. running t [])

pub Writes-exited :
    (s : FtpServer) (bytes : List ℕ) (seen : List PacketData) (d : PacketData)
    → Writes (inl s) seen
    → ftp_server_step s d ≡ exited bytes
    → Writes (inr bytes) (seen ++ d ∷ [])
Writes-exited s bytes seen d w e =
    run-snoc s seen d w ∙ then_on-exited (ftp_server_step s d) (λ t. running t []) bytes e

-- The bytes so far begin the file, and the file that is closed is the file.
abbrev pub IsRight : List ℕ → FtpServer ⊎ List ℕ → Type 0
IsRight file (inl s) = (rest : List ℕ) × (s.written ++ rest ≡ file)
IsRight file (inr bytes) = bytes ≡ file

-- If what has been read can be continued to packets of which the file is written, it is right.
pub Writes-IsRight :
    (w : FtpServer ⊎ List ℕ) (seen rest : List PacketData) (file : List ℕ)
    → Writes w seen
    → ftp_server_run start_ftp_server (seen ++ rest) ≡ exited file
    → IsRight file w
Writes-IsRight (inl s) seen rest file w e = run-exits_extends s rest file (
    sym (
      run-append start_ftp_server seen rest
      ∙ ap (λ o. then_on o (λ t. ftp_server_run t rest)) w
      ∙ then_on-idle s (λ t. ftp_server_run t rest))
    ∙ e)
Writes-IsRight (inr bytes) seen rest file w e =
    let same : exited bytes ≡ exited file =
      sym (
        run-append start_ftp_server seen rest
        ∙ then_on-exited (ftp_server_run start_ftp_server seen) (λ t. ftp_server_run t rest) bytes
            w)
      ∙ e in
    cc
