-- ===== src/Staging/Archive/Unpack/Bounds.antt =====
-- How much the extraction of internal/application/updates/stage.go writes: members and bytes.
use filelist_streaming_servi.Base.{
  ℕ, ◌+◌, ◌≤◌, ◌<◌, ◌^◌, ◌≡◌, refl, sym, Bool, true, false, List, [], ◌∷◌, Runes, ok, ltb, subst,
  arith, Bool-cases, Result-cases, inl, inr,
}
use filelist_streaming_servi.Release.{split}
use filelist_streaming_servi.Staging.{Limits}
use filelist_streaming_servi.Staging.Archive.{Target, Rules, account_size, check_link_target}
use filelist_streaming_servi.Staging.Archive.Unpack.{
  DiskEffect, make_dir, write_file, make_link, Host, Kind, directory, regular, special, symlink,
  Member, Extraction, Unpacking, going, stopped, ◌then_go◌, ask_host, parent, unpack_regular,
  unpack_link, unpack_kind, write_file_verified, stream_member, open_content,
}
use filelist_streaming_servi.Staging.Archive.Unpack.Steps.{state_of, check_link_target-ok}

-- The bytes that the files have.
abbrev pub total_size : List DiskEffect → ℕ
total_size [] = 0
total_size (make_dir path ∷ effects) = total_size effects
total_size (write_file path size ∷ effects) = size + total_size effects
total_size (make_link path text ∷ effects) = total_size effects

-- The files have at most the accounted bytes less `ahead`, which are within the limit.
abbrev pub Fits : Limits → ℕ → Extraction → Type 0
Fits limits ahead s =
    (total_size s.effects + ahead ≤ s.rules.expanded) × (s.rules.expanded ≤ limits.expanded)

pub Fits-then :
    (limits : Limits) (a b : ℕ) (q : Unpacking) (f : Extraction → Unpacking)
    → b ≤ a
    → Fits limits a (state_of q)
    → ((s : Extraction) → Fits limits a s → Fits limits b (state_of (f s)))
    → Fits limits b (state_of (q then_go f))
Fits-then limits a b (going s) f l h k = k s h
Fits-then limits a b (stopped e s) f l h k = (omega (arith, h.0), h.1)

abbrev size_of : DiskEffect → ℕ
size_of (make_dir path) = 0
size_of (write_file path size) = size
size_of (make_link path text) = 0

total_size-cons :
    (effect : DiskEffect) (effects : List DiskEffect)
    → total_size (effect ∷ effects) ≡ size_of effect + total_size effects
total_size-cons (make_dir path) effects = omega arith
total_size-cons (write_file path size) effects = refl
total_size-cons (make_link path text) effects = omega arith

Fits-ask_host :
    (limits : Limits) (ahead : ℕ) (host : Host) (effect : DiskEffect) (s : Extraction)
    → Fits limits (size_of effect + ahead) s
    → Fits limits ahead (state_of (ask_host host effect s))
unfolding ask_host
Fits-ask_host limits ahead host effect s h = elim (Bool-cases (host.refuses s.effects effect)) [
  | inl e ↦ rw (ask_host, e) (omega (arith, h.0), h.1)
  | inr e ↦ rw (ask_host, e) (omega (arith, h.0, total_size-cons effect s.effects), h.1)
]

-- A size that is accounted for, where no sum of sizes leaves the range of an `int64`.
pub account_size-ok :
    (limits : Limits) (size : ℕ) (before after : Rules)
    → size + limits.expanded < 2 ^ 63
    → before.expanded ≤ limits.expanded
    → account_size limits size before ≡ ok after
    → (after.expanded ≡ before.expanded + size) × (after.expanded ≤ limits.expanded)
unfolding account_size
account_size-ok limits size before after small h e = ground arith

Fits-stream_member :
    (limits : Limits) (member : Member) (s : Extraction)
    → Fits limits 0 s
    → Fits limits 0 (state_of (stream_member member s))
unfolding stream_member
Fits-stream_member limits member s k = elim (Bool-cases (ltb member.delivered member.size)) [
  | inl e ↦ elim (Bool-cases member.breaks) [
    | inl f ↦ rw (stream_member, e, f) k
    | inr f ↦ rw (stream_member, e, f) k
  ]
  | inr e ↦ rw (stream_member, e) k
]

pub Fits-open_content :
    (limits : Limits) (ahead : ℕ) (locked : Bool) (s : Extraction)
    → Fits limits ahead s
    → Fits limits ahead (state_of (open_content locked s))
Fits-open_content limits ahead true s k = k
Fits-open_content limits ahead false s k = k

-- A file whose size is accounted for.
Fits-accounted :
    (limits : Limits) (host : Host) (dest : List Runes) (locked : Bool) (member : Member)
    (s : Extraction)
    → Fits limits member.size s
    → Fits limits 0 (
        state_of (
          ask_host host (make_dir (parent dest)) s
          then_go open_content locked
          then_go write_file_verified host dest member))
unfolding write_file_verified
Fits-accounted limits host dest locked member s k =
    let made : Unpacking = ask_host host (make_dir (parent dest)) s in
    Fits-then limits member.size 0 (made then_go open_content locked)
      (write_file_verified host dest member) (omega arith)
      (Fits-then limits member.size member.size made (open_content locked) (omega arith)
        (Fits-ask_host limits member.size host (make_dir (parent dest)) s (omega (arith, k.0), k.1))
        (Fits-open_content limits member.size locked))
      (λ t l.
        Fits-then limits 0 0 (ask_host host (write_file dest member.size) t) (stream_member member)
          (omega arith)
          (Fits-ask_host limits 0 host (write_file dest member.size) t (omega (arith, l.0), l.1))
          (Fits-stream_member limits member))

Fits-unpack_regular :
    (limits : Limits) (host : Host) (dest : List Runes) (locked : Bool) (member : Member)
    (s : Extraction)
    → member.size + limits.expanded < 2 ^ 63
    → Fits limits 0 s
    → Fits limits 0 (state_of (unpack_regular host limits dest locked member s))
unfolding unpack_regular
Fits-unpack_regular limits host dest locked member s small k =
    elim (Result-cases (account_size limits member.size s.rules)) [
      | inr (e, f) ↦ rw (unpack_regular, f) k
      | inl (rules, f) ↦
          let sum = account_size-ok limits member.size s.rules rules small k.1 f in
          rw (unpack_regular, f)
            (Fits-accounted limits host dest locked member (record s { rules = rules })
              (omega (arith, k.0, sum.0), sum.1))
    ]

Fits-unpack_link :
    (limits : Limits) (target : Target) (host : Host) (clean link : Runes) (s : Extraction)
    → Fits limits 0 s
    → Fits limits 0 (state_of (unpack_link host target clean link s))
unfolding unpack_link
Fits-unpack_link limits target host clean link s k =
    elim (Result-cases (check_link_target target clean link s.rules)) [
      | inr (e, f) ↦ rw (unpack_link, f) k
      | inl (rules, f) ↦
          let same : rules ≡ s.rules = (check_link_target-ok target clean link s.rules rules f).0 in
          let kept : Fits limits 0 (record s { rules = rules }) =
            subst (λ r. Fits limits 0 (record s { rules = r })) (sym same) k in
          rw (unpack_link, f)
            (Fits-then limits 0 0
              (ask_host host (make_dir (parent (split 47 clean))) (record s { rules = rules }))
              (ask_host host (make_link (split 47 clean) link)) (omega arith)
              (Fits-ask_host limits 0 host (make_dir (parent (split 47 clean)))
                (record s { rules = rules }) (omega (arith, kept.0), kept.1))
              (λ t l.
                Fits-ask_host limits 0 host (make_link (split 47 clean) link) t
                  (omega (arith, l.0), l.1)))
    ]

pub Fits-unpack_kind :
    (limits : Limits) (target : Target) (host : Host) (clean : Runes) (kind : Kind) (locked : Bool)
    (member : Member) (s : Extraction)
    → member.size + limits.expanded < 2 ^ 63
    → Fits limits 0 s
    → Fits limits 0 (state_of (unpack_kind host target limits clean kind locked member s))
unfolding unpack_kind
Fits-unpack_kind limits target host clean directory locked member s m k =
    Fits-ask_host limits 0 host (make_dir (split 47 clean)) s (omega (arith, k.0), k.1)
Fits-unpack_kind limits target host clean regular locked member s m k =
    Fits-unpack_regular limits host (split 47 clean) locked member s m k
Fits-unpack_kind limits target host clean (symlink link) locked member s m k =
    Fits-unpack_link limits target host clean link s k
Fits-unpack_kind limits target host clean special locked member s m k = k
