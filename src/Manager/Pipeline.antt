-- ===== src/Manager/Pipeline.antt =====
-- internal/application/updates/manager.go: the accepted installation on the disk of `Recovery`, up to the
-- exit of the process or the failure that `finishOperation` journals, and the startup sequence. The
-- outside of each call, the drain of the server, the download and the staging among them, is what the call
-- answers; the journal and the activation are those of `Recovery`.
use filelist_streaming_servi.Base.{
  ℕ, Bool, not, Option, none, some, ◌++◌, String, Runes, codes, ok, err, if◌then◌else◌,
}
use filelist_streaming_servi.Recovery.{
  Operation, Disk, UpdateError, pending_operation, operation_mismatch, RecoveryAction, acknowledge,
  suppress, prepare, new_operation, activate, abandon, perform_all, BackupRoute, Faults, recover,
  installer_acknowledge, consume_suppression,
}
use filelist_streaming_servi.Manager.{
  Manager, Surroundings, Failure, apply_busy, manual_only, canceled, failed, closed_channel,
}
use filelist_streaming_servi.Manager.Applied.{Application, begin_apply}

pub data Supervision : Type 0 where
  plain systemd : Supervision

-- The calls of `install`; `preparation` is what the journal refuses to `Prepare`.
pub data PipelineCall : Type 0 where
  drain download stage extract open_journal preparation activation relaunch_args hand_off :
      PipelineCall

-- What wakes `awaitBarrier`.
pub data Wake : Type 0 where
  released lapsed : Wake
  context_ended : Failure → Wake

pub record Course : Type 0 where
  pub wake : Wake
  pub supervision : Supervision
  pub refuses : PipelineCall → Option Failure
  pub id : String
  pub version : String
  pub payload : ℕ  -- the digest of the extracted executable
  pub begun : ℕ
  pub health_timeout : ℕ
  pub route : BackupRoute
  pub effects : ℕ  -- how many effects of the activation precede its refusal

pub data Finish : Type 0 where
  stopped : Failure → Finish
  exited : Finish

-- `fmt.Errorf` of a prefix and `%w`.
unfoldable pub wrap : String → Failure → Failure
wrap prefix apply_busy =
    failed (codes prefix ++ codes "updates: an apply operation is already in progress")
wrap prefix (manual_only text) = manual_only (codes prefix ++ text)
wrap prefix (canceled text) = canceled (codes prefix ++ text)
wrap prefix (failed text) = failed (codes prefix ++ text)

unfoldable pub await_barrier : Option ℕ → Wake → Option Failure
await_barrier none wake = none
await_barrier (some barrier) released = none
await_barrier (some barrier) lapsed = none
await_barrier (some barrier) (context_ended failure) = some failure

-- A call that fails ends the pipeline with its wrapped error, on the disk as it is.
unfoldable pub unless_refused : Option Failure → String → Disk → Finish × Disk → Finish × Disk
unfolding wrap
unless_refused none prefix disk rest = rest
unless_refused (some failure) prefix disk rest = (stopped (wrap prefix failure), disk)

unfoldable pub relaunch : Supervision → Course → Disk → Finish × Disk
unfolding unless_refused
relaunch systemd c disk = (exited, disk)
relaunch plain c disk =
    unless_refused (c.refuses relaunch_args) "record relaunch arguments: " disk
      (unless_refused (c.refuses hand_off) "update handoff: " disk (exited, disk))

unfoldable pub activate_prepared : Course → Disk → Operation → Finish × Disk
unfolding relaunch activate abandon perform_all
activate_prepared c disk op = elim (c.refuses activation) [
  | some failure ↦ (stopped failure, abandon c.route c.effects c.begun c.health_timeout op disk)
  | none ↦
      relaunch c.supervision c (perform_all (activate c.route c.begun c.health_timeout op) disk)
]

-- Without the words that name the operation.
unfoldable pub error_text : UpdateError → Runes
error_text pending_operation = codes "updates: pending update operation requires recovery"
error_text operation_mismatch = codes "updates: operation identity mismatch"

unfoldable pub prepare_payload : Course → Disk → Finish × Disk
unfolding activate_prepared prepare error_text new_operation
prepare_payload c disk = elim (c.refuses preparation) [
  | some failure ↦ (stopped failure, disk)
  | none ↦ elim (prepare c.id c.version disk) [
    | err e ↦ (stopped (failed (error_text e)), disk)
    | ok disk' ↦ activate_prepared c disk' (new_operation c.id c.version disk.live)
  ]
]

-- `install` for a file payload, with the barrier of the accepted operation.
unfoldable pub install : Course → Option ℕ → Disk → Finish × Disk
unfolding unless_refused prepare_payload await_barrier
install c barrier disk = elim (await_barrier barrier c.wake) [
  | some failure ↦ (stopped failure, disk)
  | none ↦ unless_refused (c.refuses drain) "drain serving before handoff: " disk (
      unless_refused (c.refuses download) "download release asset: " disk (
        unless_refused (c.refuses stage) "stage release asset: " disk (
          unless_refused (c.refuses extract) "verify staged release: " disk (
            let staged = record disk { staged_file = some c.payload } in
            unless_refused (c.refuses open_journal) "acquire update ownership: " staged
              (prepare_payload c staged)))))
]

unfoldable pub after_recovery : Faults → String → RecoveryAction → Disk → Disk
unfolding installer_acknowledge consume_suppression
after_recovery faults version acknowledge disk = elim (installer_acknowledge version disk) [
  | err e ↦ disk
  | ok disk' ↦ disk'
]
after_recovery faults version suppress disk =
    if faults.clear_fails then disk else consume_suppression disk
after_recovery faults version action disk = disk

-- `recoverPending`: what is left of an error is the disk. Where the journal is blocked, by the lock of the
-- update's helper for one, nothing is done.
unfoldable pub recover_pending : Faults → String → ℕ → Disk → Disk
unfolding recover after_recovery
recover_pending faults version now disk =
    if faults.is_blocked
    then disk
    else let (disk', action) = recover faults version now disk in
      after_recovery faults version action disk'

-- `StartupApply`, where no other operation has begun: the disk, and the application if one is made.
unfoldable pub startup_apply :
    Faults → String → ℕ → Bool → Surroundings → Manager → Disk → Disk × Option Application
unfolding recover_pending begin_apply
startup_apply faults version now done env m disk =
    let disk' = recover_pending faults version now disk in
    if not m.status.self_update
    then (disk', none)
    else (disk', begin_apply done env closed_channel m)
