-- ===== src/Runner/Storage.antt =====
-- The state of `SqliteStorageManager` in codex-runner/src/sqlite-storage.ts with the directories that
-- it works on, the single file operations, and the steps they are composed of. Each file operation
-- takes the next of the outages: whether it fails, none left meaning that it does not.
pub mod Triples
pub mod Operations
pub mod Quiet
use artifact_dev_toolkit.Common.{
  ℕ, Bool, true, false, Option, none, some, List, [], ◌∷◌, if◌then◌else◌, is_some, Result, ok, err,
}
use artifact_dev_toolkit.Common.Text.{Text, codes}
use artifact_dev_toolkit.Common.Json.{Json}
use artifact_dev_toolkit.Runner.Files.{Files, lookup, remove, put, names}

pub data StorageFailure : Type 0 where
  no_sqlite_databases : StorageFailure
  sqlite_backup_failed : StorageFailure
  backup_verification_failed : StorageFailure
  sqlite_backup_insufficient_space : StorageFailure

pub data Code : Type 0 where
  sqlite_home_not_configured : Code
  runner_busy : Code
  invalid_backup_id : Code
  backup_not_found : Code
  invalid_backup_set : Code
  app_server_shutdown_unconfirmed : Code
  restore_failed_rolled_back : Code
  restore_rollback_failed : Code
  backup_failed : Code
  insufficient_space : Code

-- A SafeError with its status, an Error with one of the messages above, or any other.
pub data Failure : Type 0 where
  safe : Code → ℕ → Failure
  failed : StorageFailure → Failure
  other : Failure

pub data Activity : Type 0 where
  idle : Activity
  backup : Activity
  restore : Activity

-- What stands in the backup root under a name: a directory, or anything else.
pub data Entry : Type 0 where
  directory : Files → Entry
  no_directory : Entry

-- The configuration, the platform and the programs that are called. A removal of a directory that
-- fails may have removed a part; `leftover` is what it leaves. `transfer` is what arrives of a file
-- in the backup root; `available` are the free bytes, `now` is the time as ISO text, and `random`
-- twelve hexadecimal digits. The App Server may change its files until it is stopped and once it is started:
-- each hook gives whether it succeeds, and the files after it.
pub record Setup : Type 0 where
  pub sqlite_home : Bool
  pub retention : ℕ
  pub runner_version : Text
  pub codex_version : Text
  pub to_text : Json → Text
  pub is_time : Text → Bool
  pub parse_json : Text → Option Json
  pub render_json : Json → Text
  pub is_later : Text → Text → Bool
  pub checksum : Text → Text
  pub sqlite_backup : Files → Text → Option Text
  pub transfer : Text → Text
  pub leftover : Files → Files
  pub available : ℕ
  pub now : Text
  pub random : Text
  pub close_first : Files → Bool × Files
  pub ready_first : Files → Bool × Files
  pub close_second : Files → Bool × Files
  pub ready_second : Files → Bool × Files

-- `stage`, `safety`, `durable_stage` and `moved_current` are the variables of the operation that runs;
-- `abandoned` are the pre-restore directories that operations have left behind, the last one first.
pub record Storage : Type 0 where
  pub home : Files
  pub root : List (Text × Entry)
  pub abandoned : List Files
  pub operation : Activity
  pub recovery_required : Bool
  pub last_failure : Option StorageFailure
  pub stage : Option Files
  pub safety : Option Files
  pub durable_stage : Option Files
  pub moved_current : Bool
  pub outages : List Bool

abbrev pub Outcome : Type 0 → Type 0
Outcome A = Result Failure A × Storage

abbrev pub Step : Type 0 → Type 0
Step A = Storage → Outcome A

module _ {A B : Type 0} where
  abbrev pub continue : Outcome A → (A → Step B) → Outcome B
  continue (err e, s) f = (err e, s)
  continue (ok a, s) f = f a s

  infixl 5 ◌>>=◌
  abbrev pub ◌>>=◌ : Step A → (A → Step B) → Step B
  m >>= f = λ s. continue (m s) f

abbrev pub return : {A : Type 0} → A → Step A
return a s = (ok a, s)

-- What the state holds.
abbrev pub gets : {A : Type 0} → (Storage → A) → Step A
gets f s = (ok (f s), s)

abbrev pub throw : {A : Type 0} → Failure → Step A
throw e s = (err e, s)

abbrev pub caught : {A : Type 0} → Outcome A → (Failure → Step A) → Outcome A
caught (err e, s) handler = handler e s
caught (ok a, s) handler = (ok a, s)

-- `try { ... } catch (error) { ... }`
abbrev pub try_catch : {A : Type 0} → Step A → (Failure → Step A) → Step A
try_catch m handler s = caught (m s) handler

-- A step's value, or another where the step throws: `.catch(() => value)`.
abbrev pub recovered : {A : Type 0} → A → Outcome A → Outcome A
recovered value (err e, s) = (ok value, s)
recovered value (ok a, s) = (ok a, s)

abbrev pub catching : {A : Type 0} → A → Step A → Step A
catching value m s = recovered value (m s)

-- What follows an error, and what follows a value.
abbrev pub branch : {A B : Type 0} → Outcome A → (Failure → Step B) → (A → Step B) → Outcome B
branch (err e, s) handler next = handler e s
branch (ok a, s) handler next = next a s

abbrev pub finished : {A : Type 0} → Result Failure A → Outcome (Unit {0}) → Outcome A
finished result (err e, s) = (err e, s)
finished result (ok done, s) = (result, s)

-- `try { ... } finally { ... }`: an error of the last part takes the place of the result.
abbrev pub try_finally : {A : Type 0} → Step A → Step (Unit {0}) → Step A
try_finally m last s = let (result, t) = m s in finished result (last t)

abbrev pub from : {A : Type 0} → Option A → Failure → Step A
from none e = throw e
from (some a) e = return a

abbrev pub check : Bool → Failure → Step (Unit {0})
check test e = if test then return tt else throw e

abbrev pub files_of : Option Files → Files
files_of none = []
files_of (some files) = files

abbrev pub modify : (Storage → Storage) → Step (Unit {0})
modify change s = (ok tt, change s)

abbrev pub fails_next : List Bool → Bool
fails_next [] = false
fails_next (fails ∷ later) = fails

abbrev pub later_outages : List Bool → List Bool
later_outages [] = []
later_outages (fails ∷ later) = later

abbrev pub spend : Storage → Storage
spend s = record s { outages = later_outages s.outages }

-- The next file operation fails, or does not.
unfoldable pub operate : Step (Unit {0})
operate s = (if fails_next s.outages then err other else ok tt, spend s)

-- `rename` from the home to the safety directory, and back
unfoldable pub move_out : Text → Step (Unit {0})
move_out name = operate >>= λ done s. elim (lookup name s.home) [
  | none ↦ (err other, s)
  | some content ↦ (
    ok tt,
    record s { home = remove name s.home; safety = some (put name content (files_of s.safety)) },
  )
]

unfoldable pub move_back : Text → Step (Unit {0})
move_back name = operate >>= λ done s. elim (lookup name (files_of s.safety)) [
  | none ↦ (err other, s)
  | some content ↦ (
    ok tt,
    record s { home = put name content s.home; safety = some (remove name (files_of s.safety)) },
  )
]

-- `rename` from the staging directory to the home
unfoldable pub promote : Text → Step (Unit {0})
promote name = operate >>= λ done s. elim (lookup name (files_of s.stage)) [
  | none ↦ (err other, s)
  | some content ↦ (
    ok tt,
    record s { home = put name content s.home; stage = some (remove name (files_of s.stage)) },
  )
]

-- `copyFile` from the safety directory to the home with COPYFILE_EXCL
unfoldable pub copy_back : Text → Step (Unit {0})
copy_back name = operate >>= λ done s. elim (lookup name (files_of s.safety)) [
  | none ↦ (err other, s)
  | some content ↦
      if is_some (lookup name s.home)
      then (err other, s)
      else (ok tt, record s { home = put name content s.home })
]

-- `rm` of a file of the home with `force`
unfoldable pub remove_home : Text → Step (Unit {0})
remove_home name = operate >>= λ done. modify (λ s. record s { home = remove name s.home })

-- The names of `readdir`
unfoldable pub read_home : Step (List Text)
read_home = operate >>= λ done s. (ok (names s.home), s)

unfoldable pub read_safety : Step (List Text)
read_safety = operate >>= λ done s. (ok (names (files_of s.safety)), s)

-- `mkdtemp`
unfoldable pub make_stage : Step (Unit {0})
make_stage = operate >>= λ done. modify (λ s. record s { stage = some [] })

unfoldable pub make_safety : Step (Unit {0})
make_safety = operate >>= λ done. modify (λ s. record s { safety = some [] })

module _ (setup : Setup) where
  -- `rm` of a directory with `recursive` and `force`
  unfoldable pub remove_safety : Step (Unit {0})
  remove_safety s = elim (operate s).0 [
    | err e ↦ (
      err e,
      record (operate s).1 { safety = some (setup.leftover (files_of (operate s).1.safety)) },
    )
    | ok done ↦ (ok tt, record (operate s).1 { safety = none })
  ]

  unfoldable pub remove_stage : Step (Unit {0})
  remove_stage s = elim (operate s).0 [
    | err e ↦ (
      err e,
      record (operate s).1 { stage = some (setup.leftover (files_of (operate s).1.stage)) },
    )
    | ok done ↦ (ok tt, record (operate s).1 { stage = none })
  ]
