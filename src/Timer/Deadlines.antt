-- ===== src/Timer/Deadlines.antt =====
-- What a delta list stands for: the absolute time at which each node runs out.
use reliable_udp.Base.{List, [], ℕ, ℤ, ◌++◌, ◌+ℤ◌, ◌∷◌, ◌≡◌, ◌≤ℤ◌}
use reliable_udp.Timer.{Peer, to_int}

-- A node's id and the time, from now, at which it runs out.
abbrev pub Deadline : Type 0
Deadline = ℕ × ℤ

abbrev pub deadlines : ℤ → List Peer → List Deadline
deadlines t [] = []
deadlines t (p ∷ ps) = (p.id, t +ℤ p.time_out) ∷ deadlines (t +ℤ p.time_out) ps

-- A time that an int holds: whole microseconds, within 32 bits.
abbrev pub IsWholeTime : ℤ → Type 0
IsWholeTime t = to_int t ≡ t

-- Every node runs out at such a time from now, and the first at `t` plus its own.
abbrev pub IsWhole : ℤ → List Peer → Type 0
IsWhole t [] = Unit
IsWhole t (p ∷ ps) = IsWholeTime (t +ℤ p.time_out) × IsWhole (t +ℤ p.time_out) ps

-- `new` is `old` with one deadline put in, that of `fp`.
pub record Placed (fp : Peer) (old new : List Deadline) : Type 0 where
  pub before : List Deadline
  pub after : List Deadline
  pub due : ℤ
  pub was : old ≡ before ++ after
  pub now : new ≡ before ++ (fp.id, due) ∷ after

-- With whole times a node goes in at its own time at either end, and never late.
abbrev pub IsTimely : {old new : List Deadline} (fp : Peer) → Placed fp old new → Type 0
IsTimely fp p = (p.due ≤ℤ fp.time_out) × ((p.after ≡ []) → p.due ≡ fp.time_out)
