-- ===== src/Postgres/Triples.antt =====
-- Reasoning about transactions: what holds before a run, and what then holds where it ends without
-- an error.
use pipsim.Common.{Bool, true, false, Option, none, some, List, [], ◌∷◌, if◌then◌else◌}
use pipsim.Common.Strings.{Bytes-Eq}
use pipsim.Postgres.Statements.{Tables, Session, Tx, resume, and_then, exec, done}

-- What holds of the value and the tables where a run ends without an error.
abbrev pub Ends : {A : Type 0} → (A → Tables → Type 0) → Option (A × Session) → Type 0
Ends q none = Unit
Ends q (some (a, (faults, t))) = q a t

abbrev pub Yields : {A : Type 0} → (A → Tables → Type 0) → Option (A × Tables) → Type 0
Yields q none = Unit
Yields q (some (a, t)) = q a t

abbrev pub Triple : {A : Type 0} → (Tables → Type 0) → Tx A → (A → Tables → Type 0) → Type 0
Triple p m q = (faults : List Bool) (t : Tables) → p t → Ends q (m (faults, t))

done-Ends :
    {A : Type 0} (q : A → Tables → Type 0) (faults : List Bool) (r : Option (A × Tables))
    → Yields q r
    → Ends q (done faults r)
unfolding done
done-Ends q faults none h = tt
done-Ends q faults (some (a, t)) h = h

pub exec-Triple :
    {A : Type 0} (p : Tables → Type 0) (q : A → Tables → Type 0)
    (statement : Tables → Option (A × Tables))
    → ((t : Tables) → p t → Yields q (statement t))
    → Triple p (exec statement) q
unfolding exec
exec-Triple p q statement h [] t pt = done-Ends q [] (statement t) (h t pt)
exec-Triple p q statement h (true ∷ faults) t pt = tt
exec-Triple p q statement h (false ∷ faults) t pt = done-Ends q faults (statement t) (h t pt)

resume-Ends :
    {A B : Type 0} (q : A → Tables → Type 0) (q' : B → Tables → Type 0) (r : Option (A × Session))
    (k : A → Tx B)
    → Ends q r
    → ((a : A) → Triple (q a) (k a) q')
    → Ends q' (resume r k)
unfolding resume
resume-Ends q q' none k h hk = tt
resume-Ends q q' (some (a, (faults, t))) k h hk = hk a faults t h

pub and_then-Triple :
    {A B : Type 0} (p : Tables → Type 0) (q : A → Tables → Type 0) (q' : B → Tables → Type 0)
    (m : Tx A) (k : A → Tx B)
    → Triple p m q
    → ((a : A) → Triple (q a) (k a) q')
    → Triple p (and_then m k) q'
unfolding and_then
and_then-Triple p q q' m k hm hk faults t pt =
    resume-Ends q q' (m (faults, t)) k (hm faults t pt) hk

weaken-Ends :
    {A : Type 0} (q q' : A → Tables → Type 0) (r : Option (A × Session))
    → ((a : A) (t : Tables) → q a t → q' a t)
    → Ends q r
    → Ends q' r
weaken-Ends q q' none h e = tt
weaken-Ends q q' (some (a, (faults, t))) h e = h a t e

pub weaken-Triple :
    {A : Type 0} (p : Tables → Type 0) (q q' : A → Tables → Type 0) (m : Tx A)
    → ((a : A) (t : Tables) → q a t → q' a t)
    → Triple p m q
    → Triple p m q'
weaken-Triple p q q' m h hm faults t pt = weaken-Ends q q' (m (faults, t)) h (hm faults t pt)

pub either-Triple :
    {A : Type 0} (test : Bool) (p : Tables → Type 0) (q : A → Tables → Type 0) (m n : Tx A)
    → Triple p m q
    → Triple p n q
    → Triple p (if test then m else n) q
either-Triple true p q m n hm hn = hm
either-Triple false p q m n hm hn = hn
