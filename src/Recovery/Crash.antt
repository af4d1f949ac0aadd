-- ===== src/Recovery/Crash.antt =====
-- internal/application/updates/install_unix.go: the activation, cut short by a crash, and the next startup.
use filelist_streaming_servi.Base.{
  ℕ, zero, suc, ◌+◌, ◌<◌, ◌≡◌, ◌≢◌, ◌⊎◌, false, true, none, some, List, All, All-in, In, String,
  arith, eq_iff,
}
use filelist_streaming_servi.Recovery.Backups.{activate-linked, activate-within}
use filelist_streaming_servi.Recovery.{
  staged, Operation, Disk, RecoveryAction, acknowledge, rollback, cleanup, after, activate, recover,
  BackupRoute, linked, copied, is_partial, no_faults,
}

-- The disk after `Prepare`: the operation is staged over the previous executable.
pub record IsPrepared (op : Operation) (old new : ℕ) (disk : Disk) : Type 0 where
  pub live_old : disk.live ≡ some old
  pub no_backup : disk.backup ≡ none
  pub staged_new : disk.staged_file ≡ some new
  pub recorded : disk.journal ≡ some op
  pub is_staged : op.phase ≡ staged
  pub prior_old : op.prior_state ≡ some old
  pub unfailed : op.failed_error ≡ none

-- Either the previous executable is live again and the transaction is over or rolled back, or the new
-- one is live, started in time under its own version, and the previous one is still at hand.
abbrev pub IsRepaired : Operation → ℕ → ℕ → String → ℕ → ℕ → Disk × RecoveryAction → Type 0
IsRepaired op old new version now deadline (disk, action) =
    ((disk.live ≡ some old) × ((action ≡ cleanup) ⊎ (action ≡ rollback)))
    ⊎ ((disk.live ≡ some new)
        × (disk.backup ≡ some old)
        × (action ≡ acknowledge)
        × (version ≡ op.version)
        × (now < deadline))

recover-linked :
    (k started health_timeout : ℕ) (op : Operation) (old new : ℕ) (disk : Disk) (version : String)
    (now : ℕ)
    → old ≢ new
    → IsPrepared op old new disk
    → IsRepaired op old new version now
        (started + health_timeout)
        (recover no_faults version now (after k (activate linked started health_timeout op) disk))
unfolding recover after activate
recover-linked zero s t op old new disk version now ne p = ground (arith, eq_iff version op.version)
recover-linked (suc zero) s t op old new disk version now ne p =
    ground (arith, eq_iff version op.version)
recover-linked (suc (suc zero)) s t op old new disk version now ne p =
    ground (arith, eq_iff version op.version)
recover-linked (suc (suc (suc zero))) s t op old new disk version now ne p =
    ground (arith, eq_iff version op.version)
recover-linked (suc (suc (suc (suc k)))) s t op old new disk version now ne p =
    ground (arith, eq_iff version op.version)

-- Let the backup be a link, or a copy through files of the digests `parts`. Where the process dies after
-- any number of the activation's effects on a prepared disk, whose new executable differs from the previous
-- one, but not between the first and the last write of a copy, and the next startup finds the journal open
-- and no call refused, it ends with the previous one live, the transaction cleaned up or rolled back, or
-- with the new one live and acknowledged, under its version and before its deadline, and the previous one
-- as the backup.
pub recover-activate-IsRepaired :
    (route : BackupRoute) (k started health_timeout : ℕ) (op : Operation) (old new : ℕ)
    (disk : Disk) (version : String) (now : ℕ)
    → old ≢ new
    → IsPrepared op old new disk
    → is_partial route k ≡ false
    → IsRepaired op old new version now
        (started + health_timeout)
        (recover no_faults version now (after k (activate route started health_timeout op) disk))
recover-activate-IsRepaired route k s t op old new disk version now ne p whole =
    let (j, e) = activate-linked route k s t op old disk whole p.live_old p.no_backup in
    rw e (recover-linked j s t op old new disk version now ne p)

-- Where the process dies in the midst of such a copy, and no part of it is the whole executable, the next
-- startup that finds the journal open and no call refused renames the part over the live executable, and
-- reports a rollback.
pub recover-copy_cut :
    (parts : List ℕ) (k started health_timeout : ℕ) (op : Operation) (old new : ℕ) (disk : Disk)
    (version : String) (now : ℕ)
    → IsPrepared op old new disk
    → All (λ part. part ≢ old) parts
    → is_partial (copied parts) (suc k) ≡ true
    → let (disk', action) =
        recover no_faults version now
          (after (suc k) (activate (copied parts) started health_timeout op) disk) in
      (action ≡ rollback) × ((part : ℕ) × In part parts × (disk'.live ≡ some part))
unfolding recover
recover-copy_cut parts k s t op old new disk version now p short cut =
    let (part, i, e) = activate-within parts k s t op disk cut in
    let differs : part ≢ old = All-in (λ part. part ≢ old) part parts short i in
    rw e (ground arith, (part, i, ground arith))
