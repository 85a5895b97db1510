-- ===== src/DeltaList/Exact.antt =====
-- addPeerToList of timer_def.h puts a timer exactly where it belongs.
use reliable_udp.Base.{
  Bool, List, [], ap, ap₂, arith, dec_lt, false, inl, inr, refl, some, true, ℕ, ◌++◌, ◌+◌, ◌-◌, ◌<◌,
  ◌∷◌, ◌≡◌, ◌≤◌, ◌⊎◌,
}
use reliable_udp.DeltaList.{Peer, add_word, insert_peer, link_before, sub_word, walk, with_time_out}

-- A node's id and the time, from now, at which it runs out.
abbrev pub Deadline : Type 0
Deadline = ℕ × ℕ

abbrev pub deadlines : ℕ → List Peer → List Deadline
deadlines t [] = []
deadlines t (p ∷ ps) = (p.id, t + p.time_out) ∷ deadlines (t + p.time_out) ps

-- The time of the last node.
abbrev pub span : List Peer → ℕ
span [] = 0
span (p ∷ ps) = p.time_out + span ps

abbrev pub NoneAfter : ℕ → List Deadline → Type 0
NoneAfter t [] = Unit
NoneAfter t (d ∷ ds) = (d.1 ≤ t) × NoneAfter t ds

abbrev pub NoneBefore : ℕ → List Deadline → Type 0
NoneBefore t [] = Unit
NoneBefore t (d ∷ ds) = (t ≤ d.1) × NoneBefore t ds

-- `new` is `old` with the deadline of `fp` put in, at its time and in its order.
pub record IsInserted (fp : Peer) (old new : List Deadline) : Type 0 where
  pub before : List Deadline
  pub after : List Deadline
  pub was : old ≡ before ++ after
  pub now : new ≡ before ++ (fp.id, fp.time_out) ∷ after
  pub early : NoneAfter fp.time_out before
  pub late : NoneBefore fp.time_out after

deadlines-NoneBefore : (s t : ℕ) (l : List Peer) → s ≤ t → NoneBefore s (deadlines t l)
deadlines-NoneBefore s t [] h = tt
deadlines-NoneBefore s t (p ∷ ps) h =
    (omega arith, deadlines-NoneBefore s (t + p.time_out) ps (omega arith))

pub sub_word-le : (a b : ℕ) → b ≤ a → a < 4294967296 → sub_word a b ≡ a - b
unfolding sub_word
sub_word-le a b h k = omega arith

add_word-lt : (a b : ℕ) → a + b < 4294967296 → add_word a b ≡ a + b
unfolding add_word
add_word-lt a b h = omega arith

delta_is :
    (f t k : ℕ) → t ≤ f → f ≤ t + k → t + k < 4294967296 → add_word (sub_word f (t + k)) k ≡ f - t
unfolding add_word sub_word
delta_is f t k h i j = omega arith

link_before-IsInserted :
    (t : ℕ) (temp : Peer) (rest : List Peer) (fp : Peer)
    → t ≤ fp.time_out
    → fp.time_out ≤ t + temp.time_out
    → t + temp.time_out < 4294967296
    → IsInserted fp
        (deadlines t (temp ∷ rest))
        (deadlines t (link_before (t + temp.time_out) temp rest fp))
unfolding link_before
link_before-IsInserted t temp rest fp h i j = record {
  before = [];
  after = deadlines t (temp ∷ rest);
  was = refl;
  now = ap₂ (λ d e. (fp.id, d) ∷ (temp.id, e) ∷ deadlines e rest) first second;
  early = tt;
  late = (i, deadlines-NoneBefore fp.time_out (t + temp.time_out) rest i);
}
  where
    delta : add_word (sub_word fp.time_out (t + temp.time_out)) temp.time_out ≡ fp.time_out - t
    delta = delta_is fp.time_out t temp.time_out h i j

    first : t + add_word (sub_word fp.time_out (t + temp.time_out)) temp.time_out ≡ fp.time_out
    first = omega (arith, delta)

    second :
        t
          + add_word (sub_word fp.time_out (t + temp.time_out)) temp.time_out
          + sub_word temp.time_out
              (add_word (sub_word fp.time_out (t + temp.time_out)) temp.time_out)
        ≡ t + temp.time_out
    second = omega (
      arith,
      delta,
      sub_word-le temp.time_out (fp.time_out - t) (omega arith) (omega arith),
      ap (sub_word temp.time_out) delta,
    )

appended-IsInserted :
    (t : ℕ) (temp fp : Peer)
    → t + temp.time_out ≤ fp.time_out
    → fp.time_out < 4294967296
    → IsInserted fp
        (deadlines t (temp ∷ []))
        (deadlines t (temp ∷ with_time_out fp (sub_word fp.time_out (t + temp.time_out)) ∷ []))
appended-IsInserted t temp fp h k = record {
  before = (temp.id, t + temp.time_out) ∷ [];
  after = [];
  was = refl;
  now =
      ap (λ d. (temp.id, t + temp.time_out) ∷ (fp.id, d) ∷ [])
        (omega (arith, sub_word-le fp.time_out (t + temp.time_out) h k));
  early = (h, tt);
  late = tt;
}

-- A node that runs out no later comes first.
passed-IsInserted :
    (fp temp : Peer) (t : ℕ) (old new : List Deadline)
    → t + temp.time_out ≤ fp.time_out
    → IsInserted fp old new
    → IsInserted fp ((temp.id, t + temp.time_out) ∷ old) ((temp.id, t + temp.time_out) ∷ new)
passed-IsInserted fp temp t old new h r = record {
  before = (temp.id, t + temp.time_out) ∷ r.before;
  after = r.after;
  was = ap (◌∷◌ (temp.id, t + temp.time_out)) r.was;
  now = ap (◌∷◌ (temp.id, t + temp.time_out)) r.now;
  early = (h, r.early);
  late = r.late;
}

-- The walk from a node whose time starts at `t`.
walk-IsInserted :
    (b : Bool) (t : ℕ) (temp : Peer) (rest : List Peer) (fp : Peer)
    → t ≤ fp.time_out
    → (b ≡ true) ⊎ (t + temp.time_out < fp.time_out)
    → t + span (temp ∷ rest) < 4294967296
    → fp.time_out < 4294967296
    → (new : List Peer) × (walk b (t + temp.time_out) temp rest fp ≡ some new)
      × IsInserted fp (deadlines t (temp ∷ rest)) (deadlines t new)
unfolding walk
walk-IsInserted b t temp [] fp h set_or fits small = elim (dec_lt fp.time_out (t + temp.time_out)) [
  | yes lt ↦ (
    link_before (t + temp.time_out) temp [] fp,
    ground arith,
    link_before-IsInserted t temp [] fp h (omega arith) (omega arith),
  )
  | no ge ↦ (
    temp ∷ with_time_out fp (sub_word fp.time_out (t + temp.time_out)) ∷ [],
    ground arith,
    appended-IsInserted t temp fp (omega arith) small,
  )
]
walk-IsInserted b t temp (next ∷ rest) fp h set_or fits small =
    elim (dec_lt (t + temp.time_out) fp.time_out) [
      | yes lt ↦
          let (new, e, r) =
            walk-IsInserted true (t + temp.time_out) next rest fp (omega arith) (inl refl)
              (omega arith) small in
          (
            temp ∷ new,
            ground (arith, e, add_word-lt (t + temp.time_out) next.time_out (omega arith)),
            passed-IsInserted fp temp t (deadlines (t + temp.time_out) (next ∷ rest))
                (deadlines (t + temp.time_out) new) (omega arith) r,
          )
      | no ge ↦ (
        link_before (t + temp.time_out) temp (next ∷ rest) fp,
        ground arith,
        link_before-IsInserted t temp (next ∷ rest) fp h (omega arith) (omega arith),
      )
    ]

-- Where no sum of times reaches 2 ^ 32, `addPeerToList` of timer_def.h always adds the timer: it
-- runs out at exactly its own time, after the timers that run out earlier and before those that run
-- out later, and all other deadlines stay as they were.
pub insert_peer-IsInserted :
    (l : List Peer) (fp : Peer)
    → span l < 4294967296
    → fp.time_out < 4294967296
    → (new : List Peer) × (insert_peer l fp ≡ some new)
      × IsInserted fp (deadlines 0 l) (deadlines 0 new)
unfolding insert_peer
insert_peer-IsInserted [] fp fits small = (
  fp ∷ [],
  refl,
  record {
    before = [];
    after = [];
    was = refl;
    now = ap (λ d. (fp.id, d) ∷ []) (omega arith);
    early = tt;
    late = tt;
  },
)
insert_peer-IsInserted (h ∷ rest) fp fits small = elim (dec_lt h.time_out fp.time_out) [
  | yes lt ↦
      let (new, e, r) =
        walk-IsInserted false 0 h rest fp (omega arith) (inr (omega arith)) (omega arith) small in
      (new, ground (arith, e), r)
  | no ge ↦ (
    fp ∷ with_time_out h (sub_word h.time_out fp.time_out) ∷ rest,
    ground arith,
    record {
      before = [];
      after = deadlines 0 (h ∷ rest);
      was = refl;
      now =
          ap₂ (λ e d. (fp.id, e) ∷ (h.id, d) ∷ deadlines d rest) (omega arith)
            (omega (arith, sub_word-le h.time_out fp.time_out (omega arith) (omega arith)));
      early = tt;
      late = (omega arith, deadlines-NoneBefore fp.time_out (0 + h.time_out) rest (omega arith));
    },
  )
]
