-- ===== src/Outcome.antt =====
-- How a round of a daemon's loop ends: it goes on in a new state, the process exits, or the round
-- does something that C leaves undefined (an access out of range, the use of a value that was
-- never set). What it sent comes with the first two.
use reliable_udp.Base.{List, [], ap, append_assoc, refl, ◌++◌, ◌∙◌, ◌≡◌}

pub data Outcome (S O : Type 0) : Type 0 where
  running : S → List O → Outcome S O
  exited : List O → Outcome S O
  fault : Outcome S O

-- Something more is sent first.
unfoldable pub sends_first : {S O : Type 0} → List O → Outcome S O → Outcome S O
sends_first os (running s ps) = running s (os ++ ps)
sends_first os (exited ps) = exited (os ++ ps)
sends_first os fault = fault

-- The next rounds, from the state that this one leaves.
unfoldable pub then_on : {S O : Type 0} → Outcome S O → (S → Outcome S O) → Outcome S O
unfolding sends_first
then_on (running s os) next = sends_first os (next s)
then_on (exited os) next = exited os
then_on fault next = fault

pub sends_first-nil : {S O : Type 0} (o : Outcome S O) → sends_first [] o ≡ o
unfolding sends_first
sends_first-nil (running s os) = refl
sends_first-nil (exited os) = refl
sends_first-nil fault = refl

pub then_on-idle :
    {S O : Type 0} (s : S) (next : S → Outcome S O) → then_on (running s []) next ≡ next s
unfolding then_on
then_on-idle s next = sends_first-nil (next s)

pub then_on-exited :
    {S O : Type 0} (o : Outcome S O) (next : S → Outcome S O) (os : List O)
    → o ≡ exited os
    → then_on o next ≡ exited os
then_on-exited o next os e = rw e (unfold then_on in refl)

pub then_on-running :
    {S O : Type 0} (o : Outcome S O) (next : S → Outcome S O) (s : S) (os ps : List O)
    → o ≡ running s os
    → next s ≡ exited ps
    → then_on o next ≡ exited (os ++ ps)
then_on-running o next s os ps e f =
    rw e (unfold then_on in ap (sends_first os) f ∙ unfold sends_first in refl)

pub then_on-goes :
    {S O : Type 0} (o : Outcome S O) (next : S → Outcome S O) (s s' : S) (os ps : List O)
    → o ≡ running s os
    → next s ≡ running s' ps
    → then_on o next ≡ running s' (os ++ ps)
then_on-goes o next s s' os ps e f =
    rw e (unfold then_on in ap (sends_first os) f ∙ unfold sends_first in refl)

-- What two stages sent before the rest.
sends_first-append :
    {S O : Type 0} (os ps : List O) (o : Outcome S O)
    → sends_first (os ++ ps) o ≡ sends_first os (sends_first ps o)
unfolding sends_first
sends_first-append os ps (running s qs) = ap (running s) (append_assoc os ps qs)
sends_first-append os ps (exited qs) = ap exited (append_assoc os ps qs)
sends_first-append os ps fault = refl

then_on-sends_first :
    {S O : Type 0} (os : List O) (o : Outcome S O) (g : S → Outcome S O)
    → then_on (sends_first os o) g ≡ sends_first os (then_on o g)
unfolding then_on
then_on-sends_first os (running s ps) g = unfold sends_first in sends_first-append os ps (g s)
then_on-sends_first os (exited ps) g = unfold sends_first in refl
then_on-sends_first os fault g = unfold sends_first in refl

pub then_on_assoc :
    {S O : Type 0} (o : Outcome S O) (f g : S → Outcome S O)
    → then_on (then_on o f) g ≡ then_on o (λ s. then_on (f s) g)
then_on_assoc (running s os) f g = unfold then_on in then_on-sends_first os (f s) g
then_on_assoc (exited os) f g = unfold then_on in refl
then_on_assoc fault f g = unfold then_on in refl
