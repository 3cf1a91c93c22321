-- ===== src/Runner/Storage/Quiet.antt =====
-- Steps of codex-runner/src/sqlite-storage.ts that may use up outages and change the staging directory
-- only.
use artifact_dev_toolkit.Common.{
  ◌≡◌, refl, ◌∙◌, Bool, true, false, Option, none, some, if◌then◌else◌, ok, err,
}
use artifact_dev_toolkit.Runner.Storage.{
  Storage, Outcome, Step, Failure, continue, ◌>>=◌, recovered, catching, operate, from, check,
  throw, return, gets,
}

-- What two states have in common.
pub record Quiet (s t : Storage) : Type 0 where
  pub home : t.home ≡ s.home
  pub root : t.root ≡ s.root
  pub abandoned : t.abandoned ≡ s.abandoned
  pub operation : t.operation ≡ s.operation
  pub recovery_required : t.recovery_required ≡ s.recovery_required
  pub last_failure : t.last_failure ≡ s.last_failure
  pub safety : t.safety ≡ s.safety
  pub durable_stage : t.durable_stage ≡ s.durable_stage
  pub moved_current : t.moved_current ≡ s.moved_current

pub Quiet-refl : (s : Storage) → Quiet s s
Quiet-refl s = record {
  home = refl;
  root = refl;
  abandoned = refl;
  operation = refl;
  recovery_required = refl;
  last_failure = refl;
  safety = refl;
  durable_stage = refl;
  moved_current = refl;
}

pub Quiet-trans : (s t u : Storage) → Quiet s t → Quiet t u → Quiet s u
Quiet-trans s t u a b = record {
  home = b.home ∙ a.home;
  root = b.root ∙ a.root;
  abandoned = b.abandoned ∙ a.abandoned;
  operation = b.operation ∙ a.operation;
  recovery_required = b.recovery_required ∙ a.recovery_required;
  last_failure = b.last_failure ∙ a.last_failure;
  safety = b.safety ∙ a.safety;
  durable_stage = b.durable_stage ∙ a.durable_stage;
  moved_current = b.moved_current ∙ a.moved_current;
}

-- A step that is quiet in every state.
pub record IsQuiet {A : Type 0} (m : Step A) : Type 0 where
  pub quiet : (s : Storage) → Quiet s (m s).1

module _ {A B : Type 0} where
  continue-Quiet :
      (s : Storage) (o : Outcome A) (f : A → Step B)
      → Quiet s o.1
      → ((a : A) → IsQuiet (f a))
      → Quiet s (continue o f).1
  continue-Quiet s (err e, t) f q h = q
  continue-Quiet s (ok a, t) f q h = Quiet-trans s t (f a t).1 q ((h a).quiet t)

  pub >>=-IsQuiet :
      (m : Step A) (f : A → Step B) → IsQuiet m → ((a : A) → IsQuiet (f a)) → IsQuiet (m >>= f)
  >>=-IsQuiet m f h k = record { quiet = λ s. continue-Quiet s (m s) f (h.quiet s) k }

module _ {A : Type 0} where
  pub return-IsQuiet : (a : A) → IsQuiet (return a)
  return-IsQuiet a = record { quiet = Quiet-refl }

  pub gets-IsQuiet : (f : Storage → A) → IsQuiet (gets f)
  gets-IsQuiet f = record { quiet = Quiet-refl }

  pub throw-IsQuiet : (e : Failure) → IsQuiet (throw {A = A} e)
  throw-IsQuiet e = record { quiet = Quiet-refl }

  pub from-IsQuiet : (o : Option A) (e : Failure) → IsQuiet (from o e)
  from-IsQuiet none e = record { quiet = Quiet-refl }
  from-IsQuiet (some a) e = record { quiet = Quiet-refl }

  pub if-IsQuiet : (b : Bool) (m n : Step A) → IsQuiet m → IsQuiet n → IsQuiet (if b then m else n)
  if-IsQuiet true m n h k = h
  if-IsQuiet false m n h k = k

  recovered-Quiet :
      (s : Storage) (value : A) (o : Outcome A) → Quiet s o.1 → Quiet s (recovered value o).1
  recovered-Quiet s value (ok a, t) q = q
  recovered-Quiet s value (err e, t) q = q

  pub catching-IsQuiet : (value : A) (m : Step A) → IsQuiet m → IsQuiet (catching value m)
  catching-IsQuiet value m h = record { quiet = λ s. recovered-Quiet s value (m s) (h.quiet s) }

pub check-IsQuiet : (b : Bool) (e : Failure) → IsQuiet (check b e)
check-IsQuiet b e = if-IsQuiet b _ _ (return-IsQuiet tt) (throw-IsQuiet e)

pub operate-IsQuiet : IsQuiet operate
unfolding operate
operate-IsQuiet = record {
  quiet = λ s. record {
    home = refl;
    root = refl;
    abandoned = refl;
    operation = refl;
    recovery_required = refl;
    last_failure = refl;
    safety = refl;
    durable_stage = refl;
    moved_current = refl;
  };
}

pub ruleset quiet_steps = (
  >>=-IsQuiet, return-IsQuiet, gets-IsQuiet, throw-IsQuiet, from-IsQuiet, if-IsQuiet,
  catching-IsQuiet, check-IsQuiet, operate-IsQuiet,
)
