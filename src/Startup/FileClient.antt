-- ===== src/Startup/FileClient.antt =====
-- Each way in which the file client's start-up comes out.
use reliable_udp.Base.{Option, none, Bool, List, false, some, true, ℕ, ℤ, ◌≡◌}
use reliable_udp.FtpClient.{header_packet}
use reliable_udp.Packet.{PacketData}
use reliable_udp.Startup.{faulted, returned, Begun, Os, begun, ended, failed}
use reliable_udp.Startup.Programs.{strcpy_20, daemon_address, FtpcPorts}

-- What the two calls say that only the file client makes: every file has the handle `h`, or none
-- can be opened, and each `sendto` fails or none does.
abbrev pub Opens : {S : Type 0} → Os S → Option ℕ → Type 0
Opens {S} os h = (s : S) (file : List ℕ) → (os.fopen s file).0 ≡ h

abbrev pub Sends : {S : Type 0} → Os S → Bool → Type 0
Sends {S} os b = (s : S) (d : ℤ) (p : PacketData) → failed ((os.sendto s d p daemon_address).0) ≡ b

-- How the start-up comes out with an open file: what strcpy makes of `filename`, none where it
-- writes past it, whether `sendto` fails, and the header packet for that name.
abbrev pub Copied :
    {S : Type 0} → ℕ → Option (List ℕ) → Bool → (List ℕ → PacketData) → Begun S FtpcPorts → Type 0
Copied f none b header r = r ≡ faulted
Copied f (some name) true header r = r ≡ ended 1
Copied {S} f (some name) false header r =
    (c : FtpcPorts) × (t : S) × (r ≡ begun c t) × (c.sourcefile ≡ f) × (c.sending ≡ header name)

-- The same from the start on: the one argument, what the stack left in `filename`, and the handle.
abbrev pub ComesOut :
    {S : Type 0}
    → Option (List ℕ)
    → List ℕ
    → Option ℕ
    → Bool
    → (List ℕ → PacketData)
    → Begun S FtpcPorts
    → Type 0
ComesOut none left h b header r = r ≡ ended 1
ComesOut (some file) left none b header r = r ≡ returned
ComesOut (some file) left (some f) b header r = Copied f (strcpy_20 file left) b header r

module _ {S : Type 0} (os : Os S) (stack : PacketData) (left contents : List ℕ) where
  abbrev header : List ℕ → PacketData
  header name = header_packet stack name contents
