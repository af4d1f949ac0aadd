-- ===== src/Recovery/Backups.antt =====
-- internal/application/updates/install_unix.go, `backupFile`: an activation that copies the backup where
-- the file system has no links.
use filelist_streaming_servi.Base.{
  ℕ, zero, suc, ◌+◌, ◌≡◌, refl, ◌∙◌, ap, Bool-cases, inl, inr, true, false, none, some, List, [],
  ◌∷◌, In, arith,
}
use filelist_streaming_servi.Recovery.{
  Operation, Disk, Effect, finish_copy, link_backup, remove_backup, write_parts, after, perform,
  perform_all, activate, abandon, is_within, is_partial, BackupRoute, linked, copied, rename_in,
  save, activated,
}

after_copy :
    (k : ℕ) (parts : List ℕ) (rest : List Effect) (disk : Disk)
    → is_within (suc k) parts ≡ false
    → (j : ℕ) × (after (suc k) (write_parts parts (finish_copy ∷ rest)) disk
        ≡ after (suc j) (finish_copy ∷ rest) disk)
unfolding after write_parts is_within
after_copy k [] rest disk h = (k, refl)
after_copy zero (part ∷ parts) rest disk h = absurd (ground arith)
after_copy (suc k) (part ∷ parts) rest disk h =
    after_copy k parts rest (record disk { backup = some part }) h

within_copy :
    (k : ℕ) (parts : List ℕ) (rest : List Effect) (disk : Disk)
    → is_within (suc k) parts ≡ true
    → (part : ℕ) × In part parts
      × (after (suc k) (write_parts parts (finish_copy ∷ rest)) disk
          ≡ record disk { backup = some part })
unfolding after write_parts is_within
within_copy k [] rest disk h = absurd (ground arith)
within_copy zero (part ∷ parts) rest disk h = (part, inl refl, refl)
within_copy (suc k) (part ∷ parts) rest disk h =
    let (last, i, e) = within_copy k parts rest (record disk { backup = some part }) h in
    (last, inr i, e)

copy-link :
    (j old : ℕ) (rest : List Effect) (disk : Disk)
    → disk.live ≡ some old
    → disk.backup ≡ none
    → after (suc j) (finish_copy ∷ rest) disk ≡ after (suc j) (link_backup ∷ rest) disk
unfolding after perform
copy-link j old rest disk h b = ap (λ d. after j rest d) (ground arith)

-- An activation that ends outside the copy leaves what one with a link leaves.
pub activate-linked :
    (route : BackupRoute) (k now timeout : ℕ) (op : Operation) (old : ℕ) (disk : Disk)
    → is_partial route k ≡ false
    → disk.live ≡ some old
    → disk.backup ≡ none
    → (j : ℕ) × (after k (activate route now timeout op) disk
        ≡ after j (activate linked now timeout op) disk)
unfolding activate is_partial after
activate-linked linked k now timeout op old disk h l b = (k, refl)
activate-linked (copied parts) zero now timeout op old disk h l b = (zero, refl)
activate-linked (copied parts) (suc k) now timeout op old disk h l b =
    let (j, e) = after_copy k parts _ disk h in (suc j, e ∙ copy-link j old _ disk l b)

pub activate-within :
    (parts : List ℕ) (k now timeout : ℕ) (op : Operation) (disk : Disk)
    → is_partial (copied parts) (suc k) ≡ true
    → (part : ℕ) × In part parts
      × (after (suc k) (activate (copied parts) now timeout op) disk
          ≡ record disk { backup = some part })
unfolding activate is_partial
activate-within parts k now timeout op disk h = within_copy k parts _ disk h

abandon_partial :
    (route : BackupRoute) (k now timeout : ℕ) (op : Operation) (disk : Disk)
    → disk.backup ≡ none
    → is_partial route k ≡ true
    → perform remove_backup (after k (activate route now timeout op) disk) ≡ disk
unfolding perform activate is_partial is_within
abandon_partial linked k now timeout op disk b e = absurd (ground arith)
abandon_partial (copied parts) zero now timeout op disk b e = absurd (ground arith)
abandon_partial (copied parts) (suc k) now timeout op disk b e =
    let (part, i, f) = within_copy k parts _ disk e in
    ap (perform remove_backup) f ∙ ground (arith, b)

pub abandon-linked :
    (route : BackupRoute) (k now timeout : ℕ) (op : Operation) (old : ℕ) (disk : Disk)
    → disk.live ≡ some old
    → disk.backup ≡ none
    → (j : ℕ) × (abandon route k now timeout op disk
        ≡ after j (activate linked now timeout op) disk)
unfolding abandon after
abandon-linked route k now timeout op old disk l b = elim (Bool-cases (is_partial route k)) [
  | inr e ↦
      let (j, f) = activate-linked route k now timeout op old disk e l b in (j, rw (abandon, e) f)
  | inl e ↦ (zero, rw (abandon, e) (abandon_partial route k now timeout op disk b e))
]

all_written :
    (parts : List ℕ) (rest : List Effect) (disk : Disk)
    → perform_all (write_parts parts (finish_copy ∷ rest)) disk
      ≡ perform_all (finish_copy ∷ rest) disk
unfolding perform_all write_parts
all_written [] rest disk = refl
all_written (part ∷ parts) rest disk = all_written parts rest (record disk { backup = some part })

-- A whole activation leaves what one with a link leaves.
pub activate-all :
    (route : BackupRoute) (now timeout : ℕ) (op : Operation) (old : ℕ) (disk : Disk)
    → disk.live ≡ some old
    → disk.backup ≡ none
    → perform_all (activate route now timeout op) disk
      ≡ after 3 (activate linked now timeout op) disk
unfolding activate perform_all after
activate-all linked now timeout op old disk l b = refl
activate-all (copied parts) now timeout op old disk l b =
    let rest = rename_in ∷ save (record op { phase = activated; deadline = now + timeout }) ∷ [] in
    all_written parts rest disk ∙ copy-link 2 old rest disk l b
