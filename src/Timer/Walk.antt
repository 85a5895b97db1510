-- ===== src/Timer/Walk.antt =====
-- The walk of addPeerToList, and what it does to the deadlines.
use reliable_udp.Base.{
  Bool, Bool-cases, List, Option, [], ap, arith, false, inl, inr, int_laws, ltb_ℤ, ltb_ℤ→lt,
  neg_part, none, pos_part, refl, some, some_inj, subst, true, ℤ, ◌++◌, ◌+ℤ◌, ◌-ℤ◌, ◌<ℤ◌, ◌∙◌, ◌∷◌,
  ◌≡◌, ◌≢◌, ◌≤ℤ◌,
}
use reliable_udp.Timer.{Peer, link_before, to_int, walk, with_time_out}
use reliable_udp.Timer.Deadlines.{Deadline, IsTimely, IsWhole, Placed, deadlines}
use mathlib.Core.Option

-- The node that `fp` goes in front of keeps its deadline.
pub deadlines-link_before :
    (t total : ℤ) (temp : Peer) (rest : List Peer) (fp : Peer)
    → deadlines t (link_before total temp rest fp)
      ≡ (fp.id, t +ℤ (fp.time_out -ℤ total)) ∷ deadlines t (temp ∷ rest)
unfolding link_before
deadlines-link_before t total temp rest fp =
    ap (◌∷◌ (fp.id, t +ℤ (fp.time_out -ℤ total))) (ap (λ e. (temp.id, e) ∷ deadlines e rest) same)
  where
    same :
        t +ℤ (fp.time_out -ℤ total) +ℤ (temp.time_out -ℤ (fp.time_out -ℤ total))
        ≡ t +ℤ temp.time_out
    same = omega int_laws

link_before-Placed :
    (t total : ℤ) (temp : Peer) (rest : List Peer) (fp : Peer)
    → Placed fp (deadlines t (temp ∷ rest)) (deadlines t (link_before total temp rest fp))
link_before-Placed t total temp rest fp = record {
  before = [];
  after = deadlines t (temp ∷ rest);
  due = t +ℤ (fp.time_out -ℤ total);
  was = refl;
  now = deadlines-link_before t total temp rest fp;
}

-- How a walk can end.
pub data Walked (fp : Peer) : Bool → ℤ → Peer → List Peer → List Peer → Type 0 where
  linked :
      (total : ℤ) (temp : Peer) (rest : List Peer)
      → fp.time_out ≤ℤ total
      → Walked fp true total temp rest (link_before total temp rest fp)
  appended :
      (b : Bool) (total : ℤ) (temp : Peer)
      → total ≤ℤ fp.time_out
      → Walked fp b total temp [] (temp ∷ with_time_out fp (fp.time_out -ℤ total) ∷ [])
  passed :
      (b : Bool) (total : ℤ) (temp next : Peer) (rest : List Peer) {new : List Peer}
      → total <ℤ fp.time_out
      → Walked fp true (to_int (total +ℤ next.time_out)) next rest new
      → Walked fp b total temp (next ∷ rest) (temp ∷ new)

walked_on :
    (b : Bool) (total : ℤ) (temp next : Peer) (rest : List Peer) (fp : Peer) (new : List Peer)
    → total <ℤ fp.time_out
    → ((tail : List Peer)
        → walk true (to_int (total +ℤ next.time_out)) next rest fp ≡ some tail
        → Walked fp true (to_int (total +ℤ next.time_out)) next rest tail)
    → (o : Option (List Peer)) → walk true (to_int (total +ℤ next.time_out)) next rest fp ≡ o
    → Option.map (◌∷◌ temp) o ≡ some new
    → Walked fp b total temp (next ∷ rest) new
walked_on b total temp next rest fp new lt ih none e m = absurd (ground arith)
walked_on b total temp next rest fp new lt ih (some tail) e m =
    subst (Walked fp b total temp (next ∷ rest)) (some_inj m)
      (passed b total temp next rest lt (ih tail e))

pub walk-Walked :
    (b : Bool) (total : ℤ) (temp : Peer) (rest : List Peer) (fp : Peer) (new : List Peer)
    → walk b total temp rest fp ≡ some new
    → Walked fp b total temp rest new
unfolding walk
walk-Walked true total temp [] fp new e = elim (Bool-cases (ltb_ℤ fp.time_out total)) [
  | inl lt ↦
      subst (Walked fp true total temp []) (some_inj (rw lt at e))
        (linked total temp [] (omega int_laws))
  | inr ge ↦
      subst (Walked fp true total temp []) (some_inj (rw ge at e))
        (appended true total temp (omega int_laws))
]
walk-Walked false total temp [] fp new e = elim (Bool-cases (ltb_ℤ fp.time_out total)) [
  | inl lt ↦ absurd (ground arith)
  | inr ge ↦
      subst (Walked fp false total temp []) (some_inj (rw ge at e))
        (appended false total temp (omega int_laws))
]
walk-Walked true total temp (next ∷ rest) fp new e = elim (Bool-cases (ltb_ℤ total fp.time_out)) [
  | inl lt ↦
      walked_on true total temp next rest fp new (ltb_ℤ→lt total fp.time_out lt)
        (walk-Walked true _ next rest fp) _ refl (rw lt at e)
  | inr ge ↦
      subst (Walked fp true total temp (next ∷ rest)) (some_inj (rw ge at e))
        (linked total temp (next ∷ rest) (omega int_laws))
]
walk-Walked false total temp (next ∷ rest) fp new e = elim (Bool-cases (ltb_ℤ total fp.time_out)) [
  | inl lt ↦
      walked_on false total temp next rest fp new (ltb_ℤ→lt total fp.time_out lt)
        (walk-Walked true _ next rest fp) _ refl (rw lt at e)
  | inr ge ↦ absurd (ground arith)
]

append_cons : (before after : List Deadline) (d e : Deadline) → before ++ d ∷ after ≢ []
append_cons [] after d e h = cc
append_cons (b ∷ bs) after d e h = cc

pub Placed-cons :
    (fp : Peer) (d : Deadline) {old new : List Deadline}
    → Placed fp old new
    → Placed fp (d ∷ old) (d ∷ new)
Placed-cons fp d p = record {
  before = d ∷ p.before;
  after = p.after;
  due = p.due;
  was = ap (◌∷◌ d) p.was;
  now = ap (◌∷◌ d) p.now;
}

appended-Placed :
    (t total : ℤ) (temp fp : Peer)
    → Placed fp
        (deadlines t (temp ∷ []))
        (deadlines t (temp ∷ with_time_out fp (fp.time_out -ℤ total) ∷ []))
appended-Placed t total temp fp = record {
  before = (temp.id, t +ℤ temp.time_out) ∷ [];
  after = [];
  due = t +ℤ temp.time_out +ℤ (fp.time_out -ℤ total);
  was = refl;
  now = refl;
}

-- Wherever the walk ends, the new list has one deadline more.
pub Walked-Placed :
    (fp : Peer) (b : Bool) (t total : ℤ) (temp : Peer) (rest : List Peer) {new : List Peer}
    → Walked fp b total temp rest new
    → Placed fp (deadlines t (temp ∷ rest)) (deadlines t new)
Walked-Placed fp _ t _ _ _ (linked total temp rest h) = link_before-Placed t total temp rest fp
Walked-Placed fp _ t _ _ _ (appended b total temp h) = appended-Placed t total temp fp
Walked-Placed fp _ t _ _ _ (passed b total temp next rest h w) =
    Placed-cons fp (temp.id, t +ℤ temp.time_out)
      (Walked-Placed fp true (t +ℤ temp.time_out) _ next rest w)

-- With whole times that deadline is not past the node's own time, and is that time at the end.
pub Walked-IsTimely :
    (fp : Peer) (b : Bool) (t total : ℤ) (temp : Peer) (rest : List Peer) {new : List Peer}
    (w : Walked fp b total temp rest new)
    → total ≡ t +ℤ temp.time_out
    → t ≤ℤ fp.time_out
    → IsWhole (t +ℤ temp.time_out) rest
    → IsTimely fp (Walked-Placed fp b t total temp rest w)
unfolding Walked-Placed link_before-Placed appended-Placed Placed-cons
Walked-IsTimely fp _ t _ _ _ (linked total temp rest h) e le wholes =
    (omega int_laws, λ a. absurd (cc))
Walked-IsTimely fp _ t _ _ _ (appended b total temp h) e le wholes = (
  omega (int_laws, ap pos_part e, ap neg_part e),
  λ a. omega (int_laws, ap pos_part e, ap neg_part e),
)
Walked-IsTimely fp _ t _ _ _ (passed b total temp next rest h w) e le wholes =
    Walked-IsTimely fp true (t +ℤ temp.time_out) _ next rest w
      (ap (λ s. to_int (s +ℤ next.time_out)) e ∙ wholes.0)
      (omega (int_laws, ap pos_part e, ap neg_part e)) wholes.1
