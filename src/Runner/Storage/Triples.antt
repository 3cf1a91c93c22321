-- ===== src/Runner/Storage/Triples.antt =====
-- What holds after a step: one condition where it gives a value, and one where it throws.
use artifact_dev_toolkit.Common.{Result, ok, err}
use artifact_dev_toolkit.Runner.Storage.{
  Storage, Outcome, Step, Failure, continue, ◌>>=◌, caught, recovered, branch, finished,
  try_finally,
}

module _ {A : Type 0} where
  abbrev pub Judge : Outcome A → (A → Storage → Type 0) → (Failure → Storage → Type 0) → Type 0
  Judge (ok a, s) Q R = Q a s
  Judge (err e, s) Q R = R e s

  -- From this state the step gives a value with `Q`, or throws with `R`.
  abbrev pub Ensures :
      Step A → Storage → (A → Storage → Type 0) → (Failure → Storage → Type 0) → Type 0
  Ensures m s Q R = Judge (m s) Q R

  pub Judge-weaken :
      (o : Outcome A) (Q Q' : A → Storage → Type 0) (R R' : Failure → Storage → Type 0)
      → ((a : A) (t : Storage) → Q a t → Q' a t)
      → ((e : Failure) (t : Storage) → R e t → R' e t)
      → Judge o Q R
      → Judge o Q' R'
  Judge-weaken (ok a, t) Q Q' R R' q r h = q a t h
  Judge-weaken (err e, t) Q Q' R R' q r h = r e t h

  -- A condition on the state alone, whatever the step's end.
  pub Judge-state :
      (o : Outcome A) (P : Storage → Type 0) → Judge o (λ a t. P t) (λ e t. P t) → P o.1
  Judge-state (ok a, t) P h = h
  Judge-state (err e, t) P h = h

  pub caught-Judge :
      (o : Outcome A) (handler : Failure → Step A) (Q : A → Storage → Type 0)
      (R : Failure → Storage → Type 0)
      → Judge o Q (λ e t. Judge (handler e t) Q R)
      → Judge (caught o handler) Q R
  caught-Judge (ok a, t) handler Q R h = h
  caught-Judge (err e, t) handler Q R h = h

  pub recovered-Judge :
      (value : A) (o : Outcome A) (Q : A → Storage → Type 0) (R : Failure → Storage → Type 0)
      → Judge o Q (λ e t. Q value t)
      → Judge (recovered value o) Q R
  recovered-Judge value (ok a, t) Q R h = h
  recovered-Judge value (err e, t) Q R h = h

  finished-state :
      (r : Result Failure A) (o : Outcome (Unit {0})) (P : Storage → Type 0)
      → P o.1
      → P (finished r o).1
  finished-state r (ok done, t) P p = p
  finished-state r (err e, t) P p = p

  -- The last part keeps the condition on the state.
  pub try_finally-state :
      (m : Step A) (last : Step (Unit {0})) (s : Storage) (P P' : Storage → Type 0)
      → P (m s).1
      → ((t : Storage) → P t → P' (last t).1)
      → P' (try_finally m last s).1
  try_finally-state m last s P P' h k = finished-state (m s).0 (last (m s).1) P' (k (m s).1 h)

module _ {A B : Type 0} where
  continue-Judge :
      (o : Outcome A) (f : A → Step B) (Q : B → Storage → Type 0) (R : Failure → Storage → Type 0)
      → Judge o (λ a t. Ensures (f a) t Q R) R
      → Judge (continue o f) Q R
  continue-Judge (ok a, t) f Q R h = h
  continue-Judge (err e, t) f Q R h = h

  pub branch-Judge :
      (o : Outcome A) (handler : Failure → Step B) (next : A → Step B) (M : A → Storage → Type 0)
      (N : Failure → Storage → Type 0) (Q : B → Storage → Type 0) (R : Failure → Storage → Type 0)
      → Judge o M N
      → ((e : Failure) (t : Storage) → N e t → Ensures (handler e) t Q R)
      → ((a : A) (t : Storage) → M a t → Ensures (next a) t Q R)
      → Judge (branch o handler next) Q R
  branch-Judge (ok a, t) handler next M N Q R h bad good = good a t h
  branch-Judge (err e, t) handler next M N Q R h bad good = bad e t h

  -- A step and what follows it.
  pub >>=-Ensures :
      (m : Step A) (f : A → Step B) (s : Storage) (Q : B → Storage → Type 0)
      (R : Failure → Storage → Type 0)
      → Ensures m s (λ a t. Ensures (f a) t Q R) R
      → Ensures (m >>= f) s Q R
  >>=-Ensures m f s Q R h = continue-Judge (m s) f Q R h

  -- The same, from what the first step ensures and what the rest makes of it.
  pub >>=-chain :
      (m : Step A) (f : A → Step B) (s : Storage) (M : A → Storage → Type 0)
      (Q : B → Storage → Type 0) (R : Failure → Storage → Type 0)
      → Ensures m s M R
      → ((a : A) (t : Storage) → M a t → Ensures (f a) t Q R)
      → Ensures (m >>= f) s Q R
  >>=-chain m f s M Q R h k = >>=-Ensures m f s Q R (Judge-weaken (m s) M _ R R k (λ e t r. r) h)

  -- The same, where the first step's error has a condition of its own.
  pub >>=-chain_with :
      (m : Step A) (f : A → Step B) (s : Storage) (M : A → Storage → Type 0)
      (N : Failure → Storage → Type 0) (Q : B → Storage → Type 0) (R : Failure → Storage → Type 0)
      → Ensures m s M N
      → ((e : Failure) (t : Storage) → N e t → R e t)
      → ((a : A) (t : Storage) → M a t → Ensures (f a) t Q R)
      → Ensures (m >>= f) s Q R
  >>=-chain_with m f s M N Q R h r k = >>=-Ensures m f s Q R (Judge-weaken (m s) M _ N R k r h)
