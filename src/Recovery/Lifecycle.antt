-- ===== src/Recovery/Lifecycle.antt =====
-- internal/application/updates/recovery.go, the other ends of an update: a crash in the rollback, a rollback that fails, the acknowledgement, and
-- the startup after a rollback.
use filelist_streaming_servi.Base.{
  ℕ, ◌<◌, ◌≡◌, ◌≢◌, ◌⊎◌, inl, inr, true, false, none, some, String, ok, err, arith, ◌&&◌, str_eq,
  eq_iff, eq_refl, ◌↔◌, Option-cases, Bool-cases,
}
use filelist_streaming_servi.Recovery.{
  staged, activated, Operation, InstallState, Disk, none_pending, acknowledge, suppress, recover,
  rollback_effects, evaluate_recovery, prepare, installer_acknowledge, consume_suppression,
  pending_operation, operation_mismatch, perform_all, new_operation, is_pending, is_awaiting,
  Faults, whole,
}
use filelist_streaming_servi.Recovery.Crash.{IsPrepared}

-- The new executable is live and the previous one is at the backup path, under an unfinished operation.
pub record IsSwapped (op : Operation) (old new : ℕ) (disk : Disk) : Type 0 where
  pub live_new : disk.live ≡ some new
  pub backup_old : disk.backup ≡ some old
  pub recorded : disk.journal ≡ some op
  pub unfinished : (op.phase ≡ staged) ⊎ (op.phase ≡ activated)
  pub prior_old : op.prior_state ≡ some old
  pub unfailed : op.failed_error ≡ none

-- The new version is acknowledged at startup exactly where the operation is activated and unfailed, the
-- live content is the new one, the running version is the operation's, and its deadline has not passed.
pub evaluate_recovery-acknowledge :
    (op : Operation) (st : InstallState)
    → (evaluate_recovery op st ≡ acknowledge) ↔ (
        (op.failed_error ≡ none)
        × (op.phase ≡ activated)
        × (st.is_activated ≡ true)
        × (st.current_version ≡ op.version)
        × (st.now < op.deadline))
unfolding evaluate_recovery
evaluate_recovery-acknowledge op st = (
  λ h. ground (arith, eq_iff st.current_version op.version),
  λ h. ground (arith, eq_iff st.current_version op.version),
)

-- With an executable live, another staged and no backup, preparing an update is refused over an unfinished
-- operation in the journal; otherwise a staged operation of the id and version is recorded, and the
-- executable is untouched.
pub prepare-IsPrepared :
    (id version : String) (disk : Disk) (old new : ℕ)
    → disk.live ≡ some old
    → disk.backup ≡ none
    → disk.staged_file ≡ some new
    → ((prepare id version disk ≡ err pending_operation)
        × ((op : Operation) × (disk.journal ≡ some op)
            × ((op.phase ≡ staged) ⊎ (op.phase ≡ activated))))
      ⊎ ((disk' : Disk) × (op : Operation) × (prepare id version disk ≡ ok disk')
          × (op.version ≡ version)
          × (op.id ≡ id)
          × IsPrepared op old new disk')
unfolding prepare
prepare-IsPrepared id version disk old new l b s = elim (Option-cases disk.journal) [
  | inl e ↦ inr (
    record disk { journal = some (new_operation id version disk.live) },
    new_operation id version disk.live,
    ground arith,
    ground arith,
    ground arith,
    ground arith,
  )
  | inr (op, e) ↦ elim (Bool-cases (is_pending op.phase)) [
    | inl p ↦ inl (ground arith, (op, e, ground arith))
    | inr p ↦ inr (
      record disk { journal = some (new_operation id version disk.live) },
      new_operation id version disk.live,
      ground arith,
      ground arith,
      ground arith,
      ground arith,
    )
  ]
]

-- For a recorded operation: either it is activated and of the running version, and the acknowledgement
-- leaves the live executable alone, without backup, staged file and journal; or it is not, and the
-- acknowledgement is refused.
pub installer_acknowledge_iff :
    (version : String) (disk : Disk) (op : Operation)
    → disk.journal ≡ some op
    → ((op.phase ≡ activated)
        × (op.version ≡ version)
        × (installer_acknowledge version disk
            ≡ ok (record { live = disk.live; backup = none; staged_file = none; journal = none })))
      ⊎ (((op.phase ≢ activated) ⊎ (op.version ≢ version))
          × (installer_acknowledge version disk ≡ err operation_mismatch))
unfolding installer_acknowledge
installer_acknowledge_iff version disk op h =
    elim (Bool-cases (is_awaiting op.phase && str_eq op.version version)) [
      | inl t ↦ inl (
        ground (arith, eq_iff op.version version),
        ground (arith, eq_iff op.version version),
        ground (arith, eq_iff op.version version, eq_refl op.id),
      )
      | inr f ↦ inr (
        ground (arith, eq_iff op.version version),
        ground (arith, eq_iff op.version version, eq_refl op.id),
      )
    ]

-- After a rollback of a swapped disk the previous executable is live, a startup suppresses the updater and
-- changes nothing, and once the suppression is consumed a startup finds nothing pending.
pub recover-suppress_once :
    (op : Operation) (old new : ℕ) (disk : Disk) (faults : Faults) (version : String) (now : ℕ)
    → IsSwapped op old new disk
    → let disk' = perform_all (rollback_effects whole false op) disk in
      (disk'.live ≡ some old)
      × (recover faults version now disk' ≡ (disk', suppress))
      × (recover faults version now (consume_suppression disk')
          ≡ (consume_suppression disk', none_pending))
unfolding recover perform_all rollback_effects consume_suppression
recover-suppress_once op old new disk faults version now s = ground arith
