-- ===== src/Runner/Restore/Installs.antt =====
-- The result of `restore` of codex-runner/src/sqlite-storage.ts.
use artifact_dev_toolkit.Common.{
  ◌≡◌, refl, ap, sym, subst, ◌∙◌, Bool, true, false, ◌&&◌, none, List, if◌then◌else◌, is_some,
  arith, Bool-cases, inl, inr, Result, ok, err,
}
use artifact_dev_toolkit.Common.Text.{Text}
use artifact_dev_toolkit.Runner.Storage.{
  Setup, Storage, Outcome, Failure, safe, other, restore_failed_rolled_back, restore, ◌>>=◌, throw,
  try_catch, finished,
}
use artifact_dev_toolkit.Runner.Storage.Triples.{
  Ensures, Judge, Judge-weaken, >>=-chain, caught-Judge,
}
use artifact_dev_toolkit.Runner.Restore.{
  Restored, call, require_recovery, body, put_back, roll_back, recover, finish, leave, run_restore,
  restore_backup, is_idle,
}
use artifact_dev_toolkit.Runner.Restore.Copies.{Anything}
use artifact_dev_toolkit.Runner.Restore.Outcomes.{finish-Left}
use artifact_dev_toolkit.Runner.Storage.{Entry}
use artifact_dev_toolkit.Runner.Restore.Reads.{Judge-Anything}
use artifact_dev_toolkit.Runner.Restore.Installed.{
  throws, IsInstalled, IsInstalled-home, body-IsInstalled,
}

finished-err :
    (e : Failure) (restored : Restored) (o : Outcome (Unit {0}))
    → (finished (err e) o).0 ≡ ok restored
    → ⊥
finished-err e restored (ok done, t) h = cc
finished-err e restored (err e', t) h = cc

finished-state : (r : Result Failure Restored) (o : Outcome (Unit {0})) → (finished r o).1 ≡ o.1
finished-state r (ok done, t) = refl
finished-state r (err e, t) = refl

finished-ok :
    (r restored : Restored) (o : Outcome (Unit {0}))
    → (finished (ok r) o).0 ≡ ok restored
    → r ≡ restored
finished-ok r restored (ok done, t) h = cc
finished-ok r restored (err e, t) h = absurd cc

module _ (setup : Setup) where
  if-Judge :
      {A : Type 0} (b : Bool) (o p : Outcome A) (Q : A → Storage → Type 0)
      → Judge o Q Anything
      → Judge p Q Anything
      → Judge (if b then o else p) Q Anything
  if-Judge true o p Q h k = h
  if-Judge false o p Q h k = k

  recover-throws :
      (e : Failure) (s : Storage) (Q : Restored → Storage → Type 0)
      → Ensures (recover setup e) s Q Anything
  unfolding recover roll_back
  recover-throws e s Q =
      if-Judge (s.moved_current && is_some s.safety) (roll_back setup s) (err e, s) Q
        (>>=-chain (try_catch (call setup.close_second other) (λ e'. require_recovery))
          (λ closed. try_catch (put_back setup) (λ e'. require_recovery) >>= λ back.
            throw {A = Restored} (safe restore_failed_rolled_back 503))
          s (λ closed t. Unit {0}) Q Anything
          (Judge-Anything (try_catch (call setup.close_second other) (λ e'. require_recovery) s))
          (λ closed t r.
            throws (try_catch (put_back setup) (λ e'. require_recovery))
              (safe restore_failed_rolled_back 503) t Q))
        tt

  finished-IsInstalled :
      (root : List (Text × Entry)) (o : Outcome Restored)
      → Judge o (λ done t. IsInstalled setup root done t) Anything
      → (restored : Restored) → (finished o.0 (finish setup o.1)).0 ≡ ok restored
      → IsInstalled setup root restored (finished o.0 (finish setup o.1)).1
  finished-IsInstalled root (err e, t) h restored is =
      absurd (finished-err e restored (finish setup t) is)
  finished-IsInstalled root (ok done, t) there restored is =
      IsInstalled-home setup root restored t (finished (ok done) (finish setup t)).1
        (ap (λ (w : Storage). w.home) (finished-state (ok done) (finish setup t))
          ∙ (finish-Left setup t).0)
        (subst (λ r. IsInstalled setup root r t) (finished-ok done restored (finish setup t) is)
          there)

  run_restore-IsInstalled :
      (id : Text) (s : Storage) (restored : Restored)
      → (run_restore setup id s).0 ≡ ok restored
      → IsInstalled setup s.root restored (run_restore setup id s).1
  unfolding run_restore
  run_restore-IsInstalled id s restored h =
      let started : Storage = record s {
        operation = restore;
        stage = none;
        safety = none;
        moved_current = false;
      } in
      finished-IsInstalled s.root (try_catch (body setup id) (recover setup) started)
        (caught-Judge (body setup id started) (recover setup)
          (λ done t. IsInstalled setup s.root done t) Anything
          (Judge-weaken (body setup id started) _ _ _ _ (λ done t there. there)
            (λ e t r. recover-throws e t (λ done u. IsInstalled setup s.root done u))
            (body-IsInstalled setup id started)))
        restored h

  restore_backup-ok :
      (id : Text) (s : Storage) (restored : Restored)
      → (restore_backup setup id s).0 ≡ ok restored
      → restore_backup setup id s ≡ leave setup (run_restore setup id s)
  unfolding restore_backup
  restore_backup-ok id s restored h = elim (Bool-cases setup.sqlite_home) [
    | inr e ↦ absurd (ground (arith, h))
    | inl e ↦ elim (Bool-cases (is_idle s.operation)) [
      | inr e' ↦ absurd (ground (arith, h))
      | inl e' ↦ simp (e, e') refl
    ]
  ]

  -- Where a restoration gives a result, the root had a directory for the backup that the result names,
  -- with a manifest that parses; each database of the manifest has the stated digest and size there;
  -- and the App Server was started, and is ready, on a home with these databases.
  pub restore_backup-IsInstalled :
      (id : Text) (s : Storage) (restored : Restored)
      → (restore_backup setup id s).0 ≡ ok restored
      → IsInstalled setup s.root restored (restore_backup setup id s).1
  restore_backup-IsInstalled id s restored h =
      let begun = restore_backup-ok id s restored h in
      subst (λ o. IsInstalled setup s.root restored o.1) (sym begun)
        (run_restore-IsInstalled id s restored (ap (λ o. o.0) (sym begun) ∙ h))
