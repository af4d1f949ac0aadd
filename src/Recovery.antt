-- ===== src/Recovery.antt =====
-- internal/application/updates/recovery.go and install_unix.go: the update transaction of a single-file
-- installation. A file is its SHA-256 digest, a number; the disk holds the live executable, the file at
-- the operation's backup path, the staged executable and the journal. A procedure that changes the disk
-- is the list of its effects in order: a crash leaves the disk after a prefix of them, and so does a failing
-- call, but that a copy of the backup that fails is removed (`abandon`). Flushes and file modes change
-- nothing of this; what the calls of a startup refuse is `Faults`.
pub mod Backups
pub mod Crash
pub mod Lifecycle
use filelist_streaming_servi.Base.{
  ℕ, zero, suc, ◌+◌, Bool, true, false, not, ◌&&◌, ◌||◌, Option, none, some, List, [], ◌∷◌, String,
  Runes, codes, Result, ok, err, str_eq, ltb, ◌==◌, if◌then◌else◌, ◌++◌,
}

pub data Phase : Type 0 where
  staged activated confirmed rolled_back other_phase : Phase

pub record Operation : Type 0 where
  pub id : String
  pub version : String
  pub phase : Phase
  pub prior_state : Option ℕ  -- none where it is not the text of a digest
  pub deadline : ℕ
  pub suppress_next : Bool
  pub failed_error : Option Runes

pub data RecoveryAction : Type 0 where
  none_pending acknowledge rollback cleanup suppress manual : RecoveryAction

pub record InstallState : Type 0 where
  pub current_version : String
  pub now : ℕ
  pub is_activated : Bool
  pub is_pristine : Bool

evaluate_activated : Operation → InstallState → RecoveryAction
evaluate_activated op st =
    if st.is_activated && (str_eq st.current_version op.version && ltb st.now op.deadline)
    then acknowledge
    else if st.is_activated || not st.is_pristine
    then rollback
    else cleanup

evaluate_phase : Phase → Operation → InstallState → RecoveryAction
unfolding evaluate_activated
evaluate_phase staged op st = if st.is_activated then rollback else cleanup
evaluate_phase activated op st = evaluate_activated op st
evaluate_phase confirmed op st = cleanup
evaluate_phase rolled_back op st = suppress
evaluate_phase other_phase op st = manual

unfoldable pub evaluate_recovery : Operation → InstallState → RecoveryAction
unfolding evaluate_phase
evaluate_recovery op st = elim op.failed_error [
  | some e ↦ manual
  | none ↦ evaluate_phase op.phase op st
]

pub record Disk : Type 0 where
  pub live : Option ℕ
  pub backup : Option ℕ
  pub staged_file : Option ℕ
  pub journal : Option Operation

-- The state of the live path: whether it carries new content, and whether it is provably untouched.
live_state_prior : ℕ → Option ℕ → Bool × Bool
live_state_prior live none = (false, false)
live_state_prior live (some prior) = (not (live == prior), live == prior)

live_state_backup : ℕ → Option ℕ → Option ℕ → Bool × Bool
unfolding live_state_prior
live_state_backup live (some backup) prior = if live == backup then (false, true) else (true, false)
live_state_backup live none prior = live_state_prior live prior

unfoldable pub live_state : Operation → Disk → Bool × Bool
unfolding live_state_backup
live_state op disk = elim disk.live [
  | none ↦ (false, false)
  | some live ↦ live_state_backup live disk.backup op.prior_state
]

unfoldable pub install_state : Operation → String → ℕ → Disk → InstallState
unfolding live_state
install_state op version now disk =
    let (a, p) = live_state op disk in
    record { current_version = version; now = now; is_activated = a; is_pristine = p }

-- What one call does to the disk.
pub data Effect : Type 0 where
  link_backup : Effect  -- `os.Link(live, backup)`, refused where the backup exists
  write_backup : ℕ → Effect  -- part of a copy under the backup's name, a file of this digest
  finish_copy : Effect  -- the end of that copy
  remove_backup : Effect  -- `os.Remove(backup)`
  rename_in : Effect  -- `os.Rename(staged, live)`
  restore_backup : Effect  -- `os.Rename(backup, live)`
  save : Operation → Effect
  remove_debris : Effect  -- `os.RemoveAll` of the backup and the staged paths
  clear_journal : Effect

move : Option ℕ → Option ℕ → Option ℕ
move none target = target
move (some file) target = some file

unfoldable pub perform : Effect → Disk → Disk
unfolding move
perform link_backup disk = record disk { backup = move disk.backup disk.live }
perform (write_backup partial) disk = record disk { backup = some partial }
perform finish_copy disk = record disk { backup = disk.live }
perform remove_backup disk = record disk { backup = none }
perform rename_in disk = record disk { live = move disk.staged_file disk.live; staged_file = none }
perform restore_backup disk = record disk { live = move disk.backup disk.live; backup = none }
perform (save op) disk = record disk { journal = some op }
perform remove_debris disk = record disk { backup = none; staged_file = none }
perform clear_journal disk = record disk { journal = none }

-- The disk after the first `k` effects.
unfoldable pub after : ℕ → List Effect → Disk → Disk
unfolding perform
after zero effects disk = disk
after (suc k) [] disk = disk
after (suc k) (e ∷ effects) disk = after k effects (perform e disk)

unfoldable pub perform_all : List Effect → Disk → Disk
unfolding perform
perform_all [] disk = disk
perform_all (e ∷ effects) disk = perform_all effects (perform e disk)

-- How `backupFile` makes the backup: a hard link, or on a file system without links a copy, with the
-- digests of the file as it grows.
pub data BackupRoute : Type 0 where
  linked : BackupRoute
  copied : List ℕ → BackupRoute

unfoldable pub write_parts : List ℕ → List Effect → List Effect
write_parts [] rest = rest
write_parts (part ∷ parts) rest = write_backup part ∷ write_parts parts rest

unfoldable pub backup_file : BackupRoute → List Effect → List Effect
unfolding write_parts
backup_file linked rest = link_backup ∷ rest
backup_file (copied parts) rest = write_parts parts (finish_copy ∷ rest)

-- `posixFilePlatform.activate`, at the time `now` with the health timeout.
unfoldable pub activate : BackupRoute → ℕ → ℕ → Operation → List Effect
unfolding backup_file
activate route now health_timeout op =
    backup_file route
      (rename_in ∷ save (record op { phase = activated; deadline = now + health_timeout }) ∷ [])

unfoldable pub is_within : ℕ → List ℕ → Bool
is_within zero parts = false
is_within (suc k) [] = false
is_within (suc zero) (part ∷ parts) = true
is_within (suc (suc k)) (part ∷ parts) = is_within (suc k) parts

-- Whether after the first `k` effects of the activation the backup is a part of a copy.
unfoldable pub is_partial : BackupRoute → ℕ → Bool
unfolding is_within
is_partial linked k = false
is_partial (copied parts) k = is_within k parts

-- What an activation leaves that fails after `k` effects: a copy that fails is removed.
unfoldable pub abandon : BackupRoute → ℕ → ℕ → ℕ → Operation → Disk → Disk
unfolding activate after is_partial perform
abandon route k now health_timeout op disk =
    let left = after k (activate route now health_timeout op) disk in
    if is_partial route k then perform remove_backup left else left

-- `Installer.Cleanup`.
abbrev pub cleanup_effects : List Effect
cleanup_effects = remove_debris ∷ clear_journal ∷ []

-- What the file system and the journal refuse to a startup.
pub record Faults : Type 0 where
  pub is_blocked : Bool  -- the journal: its lock is held, or it cannot be read
  pub rename_fails : Bool
  pub flush_fails : Bool  -- the flush of the directory
  pub save_fails : Bool  -- `Journal.Save`
  pub clear_fails : Bool  -- `Journal.Clear`

abbrev pub no_faults : Faults
no_faults = record {
  is_blocked = false;
  rename_fails = false;
  flush_fails = false;
  save_fails = false;
  clear_fails = false;
}

-- What `restoreFile` comes to: an error of the flush leaves the backup renamed.
pub data Restored : Type 0 where
  whole unflushed not_renamed : Restored

restore_effects : Restored → List Effect
restore_effects not_renamed = []
restore_effects _ = restore_backup ∷ []

restore_error : Restored → Option Runes → Option Runes
restore_error whole e = e
restore_error _ e = some (codes "startup recovery")

-- `posixFilePlatform.rollback`: where `restoreFile` fails the journal records why, here without the file
-- system's own words, if it can be saved.
unfoldable pub rollback_effects : Restored → Bool → Operation → List Effect
unfolding restore_effects restore_error
rollback_effects restored save_fails op =
    restore_effects restored
    ++ (if save_fails
        then []
        else save (record op {
          phase = rolled_back;
          suppress_next = true;
          failed_error = restore_error restored op.failed_error;
        })
          ∷ [])

-- `os.Rename` of the backup fails where there is none, or where the file system refuses.
restore_file : Faults → Disk → Restored
restore_file faults disk = elim disk.backup [
  | none ↦ not_renamed
  | some b ↦
      if faults.rename_fails then not_renamed else if faults.flush_fails then unflushed else whole
]

is_whole : Restored → Bool
is_whole whole = true
is_whole _ = false

recover_by : RecoveryAction → Faults → Operation → Disk → Disk × RecoveryAction
unfolding perform_all rollback_effects restore_file is_whole
recover_by cleanup faults op disk = (
  perform_all
      (if faults.flush_fails || faults.clear_fails then remove_debris ∷ [] else cleanup_effects)
      disk,
  cleanup,
)
recover_by rollback faults op disk =
    let restored = restore_file faults disk in
    (
      perform_all (rollback_effects restored faults.save_fails op) disk,
      if is_whole restored && not faults.save_fails then rollback else manual,
    )
recover_by action faults op disk = (disk, action)

-- `Installer.Recover` at startup, where the journal is open.
unfoldable pub recover : Faults → String → ℕ → Disk → Disk × RecoveryAction
unfolding recover_by evaluate_recovery install_state
recover faults version now disk = elim disk.journal [
  | none ↦ (disk, none_pending)
  | some op ↦ recover_by (evaluate_recovery op (install_state op version now disk)) faults op disk
]

pub data UpdateError : Type 0 where
  pending_operation operation_mismatch : UpdateError

is_pending : Phase → Bool
is_pending staged = true
is_pending activated = true
is_pending _ = false

-- `newOperation` with the digest of the live executable.
unfoldable pub new_operation : String → String → Option ℕ → Operation
new_operation id version prior = record {
  id = id;
  version = version;
  phase = staged;
  prior_state = prior;
  deadline = 0;
  suppress_next = false;
  failed_error = none;
}

prepare_over : Option Operation → String → String → Disk → Result UpdateError Disk
unfolding new_operation is_pending
prepare_over none id version disk =
    ok (record disk { journal = some (new_operation id version disk.live) })
prepare_over (some op) id version disk =
    if is_pending op.phase
    then err pending_operation
    else ok (record disk { journal = some (new_operation id version disk.live) })

-- `Installer.Prepare` for a file payload; the backup path is a new random name, so no file is there.
unfoldable pub prepare : String → String → Disk → Result UpdateError Disk
unfolding prepare_over
prepare id version disk = prepare_over disk.journal id version disk

is_awaiting : Phase → Bool
is_awaiting activated = true
is_awaiting _ = false

-- `Journal.Acknowledge`.
unfoldable pub journal_acknowledge : String → String → Disk → Result UpdateError Disk
unfolding is_awaiting perform
journal_acknowledge id version disk = elim disk.journal [
  | none ↦ err operation_mismatch
  | some op ↦
      if is_awaiting op.phase && (str_eq op.id id && str_eq op.version version)
      then ok (perform (save (record op { phase = confirmed })) disk)
      else err operation_mismatch
]

-- `Installer.Acknowledge`.
unfoldable pub installer_acknowledge : String → Disk → Result UpdateError Disk
unfolding journal_acknowledge perform_all
installer_acknowledge version disk = elim disk.journal [
  | none ↦ err operation_mismatch
  | some op ↦ elim (journal_acknowledge op.id version disk) [
    | err e ↦ err e
    | ok disk' ↦ ok (perform_all cleanup_effects disk')
  ]
]

-- `Installer.ConsumeSuppression`.
unfoldable pub consume_suppression : Disk → Disk
unfolding perform
consume_suppression disk = perform clear_journal disk
