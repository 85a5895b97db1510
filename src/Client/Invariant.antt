-- ===== src/Client/Invariant.antt =====
-- What the sending daemon's window and buffer hold.
-- `n` packets of the transfer have come from the file client, in order.
use reliable_udp.Base.{
  List, Option, arith, get_elem?, get_elem?-lt, get_elem?-replicate, length, length-replicate, none,
  refl, replicate, some, ℕ, ◌%◌, ◌+◌, ◌<◌, ◌≡◌, ◌≤◌,
}
use reliable_udp.Client.{Client, stamped, start_client}
use reliable_udp.Packet.{Packet, PacketData}
use reliable_udp.Rto.{Timeval}

pub record Holds (transfer : List PacketData) (destaddr n : ℕ) (c : Client) : Type 0 where
  pub length_window : length c.window ≡ 20
  pub length_buffer : length c.buffer ≡ 64
  pub head_is : c.head ≡ n % 64
  pub pointer_in : c.window_pointer ≤ 20
  pub pointer_le : c.window_pointer ≤ n
  -- The cells below `window_pointer` hold the last numbers, as far as they are not acknowledged.
  pub cells :
      (i s : ℕ)
      → get_elem? c.window i ≡ some (some s)
      → (i < c.window_pointer) × (s + c.window_pointer ≡ n + i)
  -- A slot holds a packet of the transfer, at the place of its number.
  pub slots :
      (j : ℕ) (p : Packet)
      → get_elem? c.buffer j ≡ some (some p)
      → (p ≡ stamped destaddr p.packetdata)
        × (get_elem? transfer p.packetdata.sequence_num ≡ some p.packetdata)
        × (p.packetdata.sequence_num < n)
        × (j ≡ p.packetdata.sequence_num % 64)
  -- The last 64 packets are there.
  pub kept :
      (s : ℕ)
      → s < n
      → n ≤ s + 64
      → (p : Packet) × (get_elem? c.buffer (s % 64) ≡ some (some p))
        × (p.packetdata.sequence_num ≡ s)

module _ (transfer : List PacketData) (destaddr : ℕ) where
  pub start_client-Holds : (unset : Timeval) → Holds transfer destaddr 0 (start_client unset)
  unfolding start_client
  start_client-Holds unset = record {
    length_window = length-replicate {A = Option ℕ} 20 none;
    length_buffer = length-replicate {A = Option Packet} 64 none;
    head_is = refl;
    pointer_in = omega arith;
    pointer_le = omega arith;
    cells = λ i s e. absurd (no_cell i s e);
    slots = λ j p e. absurd (no_slot j p e);
    kept = λ s h k. absurd (omega arith);
  }
    where
      no_cell : (i s : ℕ) → get_elem? (replicate 20 none) i ≡ some (some s) → ⊥
      no_cell i s e = cc (
        e,
        get_elem?-replicate {A = Option ℕ} 20 i none (
            rw (length-replicate {A = Option ℕ} 20 none) at
              (get_elem?-lt (replicate {A = Option ℕ} 20 none) i e)),
      )

      no_slot : (j : ℕ) (p : Packet) → get_elem? (replicate 64 none) j ≡ some (some p) → ⊥
      no_slot j p e = cc (
        e,
        get_elem?-replicate {A = Option Packet} 64 j none
            (get_elem?-lt (replicate {A = Option Packet} 64 none) j e),
      )
