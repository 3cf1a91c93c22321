-- ===== src/Runner/Restore/NoLoss.antt =====
-- Lemmas on the rollback of `restore` (codex-runner/src/sqlite-storage.ts), and on its body with it.
use artifact_dev_toolkit.Common.{
  ◌≡◌, ap, sym, ◌∙◌, Bool, true, false, ◌&&◌, some, if◌then◌else◌, arith, is_some, ◌⊎◌, inl, inr,
  ok, err,
}
use artifact_dev_toolkit.Common.Text.{Text}
use artifact_dev_toolkit.Runner.Files.{Files}
use artifact_dev_toolkit.Runner.Storage.{
  Setup, Storage, Outcome, Failure, safe, other, restore_failed_rolled_back, ◌>>=◌, throw,
  try_catch,
}
use artifact_dev_toolkit.Runner.Storage.Triples.{
  Ensures, Judge, Judge-weaken, >>=-chain, >>=-chain_with, caught-Judge,
}
use artifact_dev_toolkit.Runner.Storage.Quiet.{Quiet}
use artifact_dev_toolkit.Runner.Restore.{
  Restored, call, require_recovery, put_back, roll_back, recover, install, set_aside, body, prepare,
}
use artifact_dev_toolkit.Runner.Restore.Preparation.{prepare-IsQuiet}
use artifact_dev_toolkit.Runner.Restore.SetAside.{Kept, Intact, require_recovery-Ensures}
use artifact_dev_toolkit.Runner.Restore.Rollback.{Kept-safety, call-Ensures, put_back-Ensures}
use artifact_dev_toolkit.Runner.Restore.Safety.{
  Suspended, Preserved, untouched, recovering, restarted, set_aside-Ensures, install-Ensures,
}

module _ {A : Type 0} where
  if-true-Judge :
      (b : Bool) (o p : Outcome A) (Q : A → Storage → Type 0) (R : Failure → Storage → Type 0)
      → b ≡ true
      → Judge o Q R
      → Judge (if b then o else p) Q R
  if-true-Judge true o p Q R e h = h
  if-true-Judge false o p Q R e h = absurd (cc)

  if-false-Judge :
      (b : Bool) (o p : Outcome A) (Q : A → Storage → Type 0) (R : Failure → Storage → Type 0)
      → b ≡ false
      → Judge p Q R
      → Judge (if b then o else p) Q R
  if-false-Judge false o p Q R e h = h
  if-false-Judge true o p Q R e h = absurd (cc)

module _ (setup : Setup) (original : Files) where
  -- An error before the App Server was told to stop, one before the databases were set aside, and one
  -- after.
  pub data Stopped (home : Files) (t : Storage) : Type 0 where
    before : t.home ≡ home → t.moved_current ≡ false → Stopped home t
    intact : Intact original t → Stopped home t
    suspended : Suspended setup original t → Stopped home t

  abbrev pub Lossless : Files → Storage → Type 0
  Lossless home t = (t.home ≡ home) ⊎ Preserved setup original t

module _ (setup : Setup) (original : Files)
    (whole : (files : Files) → setup.leftover files ≡ files) where
  require_recovery-Preserved :
      {A : Type 0} (s : Storage) (Q : A → Storage → Type 0)
      → Kept original s
      → Ensures (require_recovery {A = A}) s Q (λ e t. Preserved setup original t)
  require_recovery-Preserved s Q kept =
      Judge-weaken (require_recovery s) Q Q _ _ (λ a t q. q) (λ e t (r, same). recovering r)
        (require_recovery-Ensures original s Q kept)

  roll_back-Preserved :
      (s : Storage)
      → Suspended setup original s
      → Ensures
          (roll_back setup)
          s
          (λ done t. Preserved setup original t)
          (λ e t. Preserved setup original t)
  unfolding roll_back
  roll_back-Preserved s (safety, (is, aside), holds) =
      let R : Failure → Storage → Type 0 = λ e t. Preserved setup original t in
      let Q : Restored → Storage → Type 0 = λ done t. Preserved setup original t in
      >>=-chain (try_catch (call setup.close_second other) (λ e. require_recovery))
        (λ closed. try_catch (put_back setup) (λ e. require_recovery) >>= λ back.
          throw {A = Restored} (safe restore_failed_rolled_back 503))
        s (λ closed t. t.safety ≡ some safety) Q R
        (caught-Judge (call setup.close_second other s) (λ e. require_recovery) _ R
          (Judge-weaken (call setup.close_second other s) _ _ _ _
            (λ closed t (stopped, same). ap (λ (u : Storage). u.safety) same ∙ is)
            (λ e t same. require_recovery-Preserved t _ (
              Kept-safety setup original safety t holds (ap (λ (u : Storage). u.safety) same ∙ is)))
            (call-Ensures setup.close_second other s)))
        (λ closed t is'.
          >>=-chain (try_catch (put_back setup) (λ e. require_recovery))
            (λ back. throw {A = Restored} (safe restore_failed_rolled_back 503)) t
            (λ back u. Preserved setup original u) Q R
            (caught-Judge (put_back setup t) (λ e. require_recovery) _ R
              (Judge-weaken (put_back setup t) _ _ _ _ (λ back u started. restarted started)
                (λ e u kept. require_recovery-Preserved u _ kept)
                (put_back-Ensures setup original t safety whole is' holds)))
            (λ back u preserved. preserved))

  Intact-Preserved : (t : Storage) → Intact original t → Preserved setup original t
  Intact-Preserved t (unmoved, inl holds) = untouched holds
  Intact-Preserved t (unmoved, inr recovers) = recovering recovers

  Judge-Quiet :
      {A : Type 0} (o : Outcome A) (s : Storage)
      → s.moved_current ≡ false
      → Quiet s o.1
      → Judge o
          (λ a t. (t.home ≡ s.home) × (t.moved_current ≡ false))
          (λ e t. Stopped setup original s.home t)
  Judge-Quiet (ok a, t) s unmoved q = (q.home, q.moved_current ∙ unmoved)
  Judge-Quiet (err e, t) s unmoved q = before q.home (q.moved_current ∙ unmoved)

  pub recover-Lossless :
      (home : Files) (e : Failure) (s : Storage)
      → Stopped setup original home s
      → Ensures
          (recover setup e)
          s
          (λ done t. Lossless setup original home t)
          (λ e' t. Lossless setup original home t)
  unfolding recover
  recover-Lossless home e s (before same unmoved) =
      if-false-Judge (s.moved_current && is_some s.safety) (roll_back setup s) (err e, s) _ _
        (ground (arith, unmoved)) (inl same)
  recover-Lossless home e s (intact left) =
      if-false-Judge (s.moved_current && is_some s.safety) (roll_back setup s) (err e, s) _ _
        (ground (arith, left.0)) (inr (Intact-Preserved s left))
  recover-Lossless home e s (suspended (safety, (is, aside), holds)) =
      if-true-Judge (s.moved_current && is_some s.safety) (roll_back setup s) (err e, s) _ _
        (ground (arith, is, aside))
        (Judge-weaken (roll_back setup s) _ _ _ _ (λ a t p. inr p) (λ e' t p. inr p)
          (roll_back-Preserved s (safety, (is, aside), holds)))

  pub body-Ensures :
      (id : Text) (s : Storage)
      → original ≡ (setup.close_first s.home).1
      → s.moved_current ≡ false
      → Ensures (body setup id) s (λ done t. Unit {0}) (λ e t. Stopped setup original s.home t)
  unfolding body
  body-Ensures id s is unmoved =
      let Q : Restored → Storage → Type 0 = λ done t. Unit {0} in
      let R : Failure → Storage → Type 0 = λ e t. Stopped setup original s.home t in
      >>=-chain (prepare setup id)
        (λ (selected, manifest). set_aside setup >>= λ aside. install setup selected manifest) s
        (λ prepared t. (t.home ≡ s.home) × (t.moved_current ≡ false)) Q R
        (Judge-Quiet (prepare setup id s) s unmoved ((prepare-IsQuiet setup id).quiet s))
        (λ (selected, manifest) t (home, still).
          >>=-chain_with (set_aside setup) (λ aside. install setup selected manifest) t _ _ Q R
            (set_aside-Ensures setup original t (is ∙ ap (λ h. (setup.close_first h).1) (sym home))
              still)
            (λ e u left. intact left)
            (λ aside u there.
              Judge-weaken (install setup selected manifest u) _ _ _ _ (λ a v q. q)
                (λ e v there'. suspended there')
                (install-Ensures setup original selected manifest u whole there)))
