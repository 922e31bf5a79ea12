-- ===== src/Postgres/Mirror/Whole.antt =====
-- Reasoning about transactions of which no statement fails by a fault: what holds where a run ends,
-- and the one reason for which it may end with an error.
use pipsim.Common.{◌≡◌, refl, Option, none, some, []}
use pipsim.Postgres.Statements.{Tables, Session, Tx, resume, and_then, exec, done}

module _ (Reason : Type 0) where
  -- The run ends without an error and with `q`, or the reason for an error holds.
  abbrev pub Finishes : {A : Type 0} → (A → Tables → Type 0) → Option (A × Session) → Type 0
  Finishes q none = Reason
  Finishes q (some (a, (faults, t))) = (faults ≡ []) × q a t

  abbrev pub Answers : {A : Type 0} → (A → Tables → Type 0) → Option (A × Tables) → Type 0
  Answers q none = Reason
  Answers q (some (a, t)) = q a t

  abbrev pub Whole : {A : Type 0} → (Tables → Type 0) → Tx A → (A → Tables → Type 0) → Type 0
  Whole p m q = (t : Tables) → p t → Finishes q (m ([], t))

  done-Finishes :
      {A : Type 0} (q : A → Tables → Type 0) (r : Option (A × Tables))
      → Answers q r
      → Finishes q (done [] r)
  unfolding done
  done-Finishes q none h = h
  done-Finishes q (some (a, t)) h = (refl, h)

  pub exec-Whole :
      {A : Type 0} (p : Tables → Type 0) (q : A → Tables → Type 0)
      (statement : Tables → Option (A × Tables))
      → ((t : Tables) → p t → Answers q (statement t))
      → Whole p (exec statement) q
  unfolding exec
  exec-Whole p q statement h t pt = done-Finishes q (statement t) (h t pt)

  resume-Finishes :
      {A B : Type 0} (q : A → Tables → Type 0) (q' : B → Tables → Type 0) (r : Option (A × Session))
      (k : A → Tx B)
      → Finishes q r
      → ((a : A) → Whole (q a) (k a) q')
      → Finishes q' (resume r k)
  unfolding resume
  resume-Finishes q q' none k h hk = h
  resume-Finishes q q' (some (a, (faults, t))) k (e, h) hk = rw e (hk a t h)

  pub and_then-Whole :
      {A B : Type 0} (p : Tables → Type 0) (q : A → Tables → Type 0) (q' : B → Tables → Type 0)
      (m : Tx A) (k : A → Tx B)
      → Whole p m q
      → ((a : A) → Whole (q a) (k a) q')
      → Whole p (and_then m k) q'
  unfolding and_then
  and_then-Whole p q q' m k hm hk t pt = resume-Finishes q q' (m ([], t)) k (hm t pt) hk

  weaken-Finishes :
      {A : Type 0} (q q' : A → Tables → Type 0) (r : Option (A × Session))
      → ((a : A) (t : Tables) → q a t → q' a t)
      → Finishes q r
      → Finishes q' r
  weaken-Finishes q q' none h e = e
  weaken-Finishes q q' (some (a, (faults, t))) h (none_left, e) = (none_left, h a t e)

  pub weaken-Whole :
      {A : Type 0} (p : Tables → Type 0) (q q' : A → Tables → Type 0) (m : Tx A)
      → ((a : A) (t : Tables) → q a t → q' a t)
      → Whole p m q
      → Whole p m q'
  weaken-Whole p q q' m h hm t pt = weaken-Finishes q q' (m ([], t)) h (hm t pt)
