-- ===== src/Manager/Startups.antt =====
-- internal/application/updates/manager.go, `recoverPending`: the startups after an activation that was cut
-- short anywhere.
use filelist_streaming_servi.Base.{
  ◌&&◌, ℕ, zero, suc, ◌+◌, ◌≡◌, ◌≢◌, ◌⊎◌, inl, inr, refl, true, false, none, some, String, arith,
  eq_iff, eq_refl, str_eq, Bool-cases, subst, sym, ltb,
}
use filelist_streaming_servi.Recovery.{
  Operation, Disk, activated, rolled_back, activate, after, recover, installer_acknowledge,
  consume_suppression, Faults, no_faults, linked,
}
use filelist_streaming_servi.Recovery.Crash.{IsPrepared}
use filelist_streaming_servi.Manager.Pipeline.{recover_pending, after_recovery}

-- Nothing is pending, and the live executable is the previous one, or the new one where `ran` holds.
pub record IsSettled (ran : Type 0) (old new : ℕ) (disk : Disk) : Type 0 where
  pub no_journal : disk.journal ≡ none
  pub no_backup : disk.backup ≡ none
  pub live : (disk.live ≡ some old) ⊎ ((disk.live ≡ some new) × ran)

-- Rolled back, with the next startup to be told.
pub record IsRolledBack (old : ℕ) (disk : Disk) : Type 0 where
  pub op : Operation
  pub recorded : disk.journal ≡ some op
  pub is_rolled_back : op.phase ≡ rolled_back
  pub unfailed : op.failed_error ≡ none
  pub live_old : disk.live ≡ some old
  pub no_backup : disk.backup ≡ none

-- The new executable is live under an operation that awaits its acknowledgement.
pub record IsActivated (op : Operation) (old new : ℕ) (disk : Disk) : Type 0 where
  pub recorded : disk.journal ≡ some op
  pub is_activated : op.phase ≡ activated
  pub unfailed : op.failed_error ≡ none
  pub live_new : disk.live ≡ some new
  pub backup_old : disk.backup ≡ some old

pub startup-acknowledged :
    (op : Operation) (old new : ℕ) (disk : Disk) (version : String) (now : ℕ)
    → old ≢ new
    → IsActivated op old new disk
    → str_eq version op.version && ltb now op.deadline ≡ true
    → IsSettled (version ≡ op.version) old new (recover_pending no_faults version now disk)
unfolding recover_pending after_recovery recover installer_acknowledge
startup-acknowledged op old new disk version now ne a ran =
    let same : version ≡ op.version = ground (arith, eq_iff version op.version) in
    record {
      no_journal = ground (arith, eq_refl op.id, eq_iff op.version version);
      no_backup = ground (arith, eq_refl op.id, eq_iff op.version version);
      live = inr (ground (arith, eq_refl op.id, eq_iff op.version version), same);
    }

pub startup-unacknowledged :
    (op : Operation) (old new : ℕ) (disk : Disk) (version : String) (now : ℕ)
    → old ≢ new
    → IsActivated op old new disk
    → str_eq version op.version && ltb now op.deadline ≡ false
    → IsRolledBack old (recover_pending no_faults version now disk)
unfolding recover_pending after_recovery recover
startup-unacknowledged op old new disk version now ne a late = record {
  op = record op { phase = rolled_back; suppress_next = true };
  recorded = ground arith;
  is_rolled_back = refl;
  unfailed = a.unfailed;
  live_old = ground arith;
  no_backup = ground arith;
}

pub startup-activated :
    (op : Operation) (old new : ℕ) (disk : Disk) (version : String) (now : ℕ)
    → old ≢ new
    → IsActivated op old new disk
    → let disk' = recover_pending no_faults version now disk in
      IsSettled (version ≡ op.version) old new disk' ⊎ IsRolledBack old disk'
startup-activated op old new disk version now ne a =
    elim (Bool-cases (str_eq version op.version && ltb now op.deadline)) [
      | inl ran ↦ inl (startup-acknowledged op old new disk version now ne a ran)
      | inr late ↦ inr (startup-unacknowledged op old new disk version now ne a late)
    ]

pub swapped-IsActivated :
    (k started health_timeout : ℕ) (op : Operation) (old new : ℕ) (disk : Disk)
    → IsPrepared op old new disk
    → IsActivated
        (record op { phase = activated; deadline = started + health_timeout })
        old
        new
        (after (suc (suc (suc k))) (activate linked started health_timeout op) disk)
unfolding after activate
swapped-IsActivated zero s t op old new disk p = record {
  recorded = refl;
  is_activated = refl;
  unfailed = p.unfailed;
  live_new = ground arith;
  backup_old = ground arith;
}
swapped-IsActivated (suc k) s t op old new disk p = record {
  recorded = refl;
  is_activated = refl;
  unfailed = p.unfailed;
  live_new = ground arith;
  backup_old = ground arith;
}

-- One startup after `k` effects of the activation.
pub startup-activate :
    (k started health_timeout : ℕ) (op : Operation) (old new : ℕ) (disk : Disk) (version : String)
    (now : ℕ)
    → old ≢ new
    → IsPrepared op old new disk
    → let disk' =
        recover_pending no_faults version now
          (after k (activate linked started health_timeout op) disk) in
      IsSettled (version ≡ op.version) old new disk' ⊎ IsRolledBack old disk'
unfolding recover_pending after_recovery after activate
startup-activate zero s t op old new disk version now ne p = inl record {
  no_journal = ground (arith, eq_iff version op.version);
  no_backup = ground (arith, eq_iff version op.version);
  live = ground (arith, eq_iff version op.version);
}
startup-activate (suc zero) s t op old new disk version now ne p = inl record {
  no_journal = ground (arith, eq_iff version op.version);
  no_backup = ground (arith, eq_iff version op.version);
  live = ground (arith, eq_iff version op.version);
}
startup-activate (suc (suc zero)) s t op old new disk version now ne p = inr record {
  op = record op { phase = rolled_back; suppress_next = true };
  recorded = ground arith;
  is_rolled_back = refl;
  unfailed = p.unfailed;
  live_old = ground arith;
  no_backup = ground arith;
}
startup-activate (suc (suc (suc k))) s t op old new disk version now ne p =
    startup-activated (record op { phase = activated; deadline = s + t }) old new
      (after (suc (suc (suc k))) (activate linked s t op) disk) version now ne
      (swapped-IsActivated k s t op old new disk p)

pub startup-idle :
    (disk : Disk) (faults : Faults) (version : String) (now : ℕ)
    → disk.journal ≡ none
    → recover_pending faults version now disk ≡ disk
unfolding recover_pending after_recovery recover
startup-idle disk faults version now h = ground arith

-- The startup after that.
pub startup-IsSettled :
    (ran : Type 0) (old new : ℕ) (disk : Disk) (version : String) (now : ℕ)
    → IsSettled ran old new disk ⊎ IsRolledBack old disk
    → IsSettled ran old new (recover_pending no_faults version now disk)
unfolding recover_pending after_recovery recover consume_suppression
startup-IsSettled ran old new disk version now (inl h) =
    subst (IsSettled ran old new) (sym (startup-idle disk no_faults version now h.no_journal)) h
startup-IsSettled ran old new disk version now (inr h) = record {
  no_journal = ground arith;
  no_backup = ground arith;
  live = inl (ground arith);
}
