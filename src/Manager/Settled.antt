-- ===== src/Manager/Settled.antt =====
-- internal/application/updates/manager.go: an accepted installation, however it ends, and the startups
-- after it.
use filelist_streaming_servi.Base.{ℕ, ◌≡◌, ◌≢◌, ◌⊎◌, none, some}
use filelist_streaming_servi.Recovery.{Operation, Disk, activate, after, new_operation, linked}
use filelist_streaming_servi.Recovery.Crash.{IsPrepared}
use filelist_streaming_servi.Manager.Pipeline.{Course, Finish, exited}

-- What the pipeline leaves: the disk before the journal, or the activation of a prepared disk cut short.
module _ (c : Course) (old : ℕ) where
  record IsUntouched (disk : Disk) : Type 0 where
    no_journal : disk.journal ≡ none
    no_backup : disk.backup ≡ none
    live_old : disk.live ≡ some old

  abbrev operation : Operation
  operation = new_operation c.id c.version (some old)

  record IsCut (finish : Finish) (disk : Disk) : Type 0 where
    count : ℕ
    before : Disk
    prepared : IsPrepared operation old c.payload before
    performed : disk ≡ after count (activate linked c.begun c.health_timeout operation) before
    exits_last : finish ≡ exited → count ≡ 3

  abbrev IsLeft : Finish × Disk → Type 0
  IsLeft (finish, disk) = (IsUntouched disk × (finish ≢ exited)) ⊎ IsCut finish disk
