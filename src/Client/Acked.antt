-- ===== src/Client/Acked.antt =====
-- An acknowledgement: the packet's timer is cancelled and its cell freed.
use reliable_udp.Base.{
  Bool-cases, List, [], arith, get_elem?, if◌then◌else◌, inl, inr, pos, refl, some, true, ℕ, ◌↔◌,
  ◌∙◌, ◌∷◌, ◌≡◌, ◌≢◌, ◌⊎◌,
}
use reliable_udp.Client.{Client, free_cells, on_ack, to_ftpc, to_timer, window_empty}
use reliable_udp.Client.Invariant.{Holds}
use reliable_udp.Client.Search.{
  get_elem?-free_cells, get_elem?-free_cells_ne, length-free_cells, window_empty-get,
}
use reliable_udp.Packet.{PacketData}

module _ (transfer : List PacketData) (destaddr n : ℕ) (c : Client)
    (v : Holds transfer destaddr n c) where
  pub freed-Holds :
      (s k : ℕ)
      → ((k ≡ c.window_pointer) ⊎ ((k ≡ 0) × (window_empty (free_cells c.window s) ≡ true)))
      → Holds transfer destaddr n (record c { window = free_cells c.window s; window_pointer = k })
  freed-Holds s k how = record {
    length_window = length-free_cells c.window s ∙ v.length_window;
    length_buffer = v.length_buffer;
    head_is = v.head_is;
    pointer_in = omega (arith, how, v.pointer_in);
    pointer_le = omega (arith, how, v.pointer_le);
    cells = λ i r e. elim how [
      | inl same ↦ rw same (v.cells i r (get_elem?-free_cells c.window s i r e).0)
      | inr (z, empty) ↦ absurd (window_empty-get (free_cells c.window s) i r empty e)
    ];
    slots = v.slots;
    kept = v.kept;
  }

  -- An acknowledgement cancels the timer of its packet, keeps in the window exactly the numbers of
  -- the other packets, each in its cell, and, if no number is left, starts the window over and tells
  -- the file client to go on; window and buffer hold what they should.
  pub on_ack_lem :
      (s : ℕ)
      → let (c', os) = on_ack c s in
        ((i r : ℕ)
          → (get_elem? c'.window i ≡ some (some r))
            ↔ ((get_elem? c.window i ≡ some (some r)) × (r ≢ s)))
        × (c'.window_pointer ≡ (if window_empty c'.window then 0 else c.window_pointer))
        × (os ≡ (
            if window_empty c'.window
            then to_timer s (pos 0) ∷ to_ftpc 0 ∷ []
            else to_timer s (pos 0) ∷ []))
        × Holds transfer destaddr n c'
  unfolding on_ack
  on_ack_lem s = elim (Bool-cases (window_empty (free_cells c.window s))) [
    | inl empty ↦ rw empty (cells, rw empty, rw empty, freed-Holds s 0 (inr (refl, empty)))
    | inr busy ↦ rw busy (cells, rw busy, rw busy, freed-Holds s c.window_pointer (inl refl))
  ]
    where
      cells :
          (i r : ℕ)
          → (get_elem? (free_cells c.window s) i ≡ some (some r))
            ↔ ((get_elem? c.window i ≡ some (some r)) × (r ≢ s))
      cells i r =
          (get_elem?-free_cells c.window s i r, λ h. get_elem?-free_cells_ne c.window s i r h.0 h.1)
