-- ===== src/Staging/Archive/Unpack/Members.antt =====
-- What `memberPath` of internal/application/updates/stage.go lets pass: members below the extraction root.
use filelist_streaming_servi.Base.{
  ◌+◌, ◌≡◌, ◌≢◌, refl, sym, ◌∙◌, ap, true, false, not, ◌||◌, none, some, List, [], ◌∷◌, Runes,
  codes, ok, ◌==◌, ltb, if◌then◌else◌, runes_eq, runes_eq-equal, runes_eq-differ, any, All, subst,
  arith, Bool-cases, inl, inr, guard-ok, bind-ok, has_prefix,
}
use filelist_streaming_servi.Release.{split}
use filelist_streaming_servi.Staging.{Limits}
use filelist_streaming_servi.Staging.Archive.{
  Target, Rules, is_bundle, is_bundle_name, first_path_element, mark_bundle, name_bundle,
  second_bundle, admit_member, admit_named, member_path, escapes, duplicate, too_many_members,
  empty_name, foreign_separator, absolute_name, clean_archive_name,
}
use filelist_streaming_servi.Staging.Archive.Names.{Kept, split-clean_archive_name}
use filelist_streaming_servi.Staging.Archive.Unpack.Steps.{IsName, Starts, Below, Named}

-- What the marking of a bundle leaves.
record Marked (target : Target) (first : Runes) (b c : Runes) : Type 0 where
  kind_fits : is_bundle_name first ≡ is_bundle target
  same : is_bundle target ≡ true → first ≡ c
  named : Named b c

name_bundle-ok :
    (first : Runes) (before after : Rules)
    → name_bundle first before ≡ ok after
    → (first ≡ after.bundle_name) × Named before.bundle_name after.bundle_name
unfolding name_bundle
name_bundle-ok first before after h =
    let name : Runes = if runes_eq before.bundle_name [] then first else before.bundle_name in
    let (e, r) =
      guard-ok (not (runes_eq name first)) second_bundle (ok (record before { bundle_name = name }))
        after h in
    let same : name ≡ first = runes_eq-equal name first (ground arith) in
    let named : after.bundle_name ≡ name = ground arith in
    (sym same ∙ sym named, λ n. named ∙ rw ((runes_eq-differ before.bundle_name []).1 n) refl)

mark_bundle-Marked :
    (target : Target) (clean : Runes) (before after : Rules)
    → mark_bundle target clean before ≡ ok after
    → Marked target (first_path_element clean) before.bundle_name after.bundle_name
unfolding mark_bundle
mark_bundle-Marked target clean before after h =
    elim (Bool-cases (is_bundle_name (first_path_element clean))) [
      | inl e ↦ elim (Bool-cases (is_bundle target)) [
        | inl f ↦
            let n = name_bundle-ok (first_path_element clean) before after (ground arith) in
            record { kind_fits = e ∙ sym f; same = λ g. n.0; named = n.1 }
        | inr f ↦ absurd (ground arith)
      ]
      | inr e ↦ elim (Bool-cases (is_bundle target)) [
        | inl f ↦ absurd (ground arith)
        | inr f ↦
            let r : after ≡ before = ground arith in
            record {
              kind_fits = e ∙ sym f;
              same = λ g. absurd (ground arith);
              named = λ n. ap (λ k. k.bundle_name) r;
            }
      ]
    ]

first_path_element-split :
    (name : Runes) → (ps : List Runes) × (split 47 name ≡ first_path_element name ∷ ps)
unfolding split first_path_element
first_path_element-split [] = ([], refl)
first_path_element-split (c ∷ s) =
    let (ps, e) = first_path_element-split s in
    elim (Bool-cases (c == 47)) [
      | inl f ↦ (split 47 s, rw (split, first_path_element, f) refl)
      | inr f ↦ (ps, rw (split, first_path_element, f, e) refl)
    ]

no_parent :
    (parts : List Runes)
    → any (runes_eq (codes "..")) parts ≡ false
    → All (λ p. p ≢ codes "..") parts
no_parent [] h = tt
no_parent (p ∷ parts) h =
    (λ e. (runes_eq-differ (codes "..") p).0 (ground arith) (sym e), no_parent parts (ground arith))

All-IsName :
    (parts : List Runes) → All Kept parts → All (λ p. p ≢ codes "..") parts → All IsName parts
All-IsName [] k n = tt
All-IsName (p ∷ parts) k n = ((k.0, n.0), All-IsName parts k.1 n.1)

-- What a member that is let in has passed: its name, and the marking of the bundle.
admit_named-Below :
    (target : Target) (clean passed : Runes) (before after : Rules)
    → All Kept (split 47 clean)
    → admit_named target clean before ≡ ok (some passed, after)
    → Below target after.bundle_name (split 47 passed) × Named before.bundle_name after.bundle_name
unfolding admit_named
admit_named-Below target clean passed before after k h =
    let (inside, h1) =
      guard-ok (any (runes_eq (codes "..")) (split 47 clean)) escapes _ (some passed, after) h in
    let (fresh, h2) =
      guard-ok (any (runes_eq clean) before.seen) duplicate _ (some passed, after) h1 in
    let (marked, h3, h4) =
      bind-ok (mark_bundle target clean (record before { seen = clean ∷ before.seen })) _
        (some passed, after) h2 in
    let m =
      mark_bundle-Marked target clean (record before { seen = clean ∷ before.seen }) marked h3 in
    let same : clean ≡ passed = ground arith in
    let kept : marked ≡ after = ground arith in
    let (ps, first) = first_path_element-split clean in
    let names : All IsName (split 47 clean) =
      All-IsName (split 47 clean) k (no_parent (split 47 clean) inside) in
    let starts : Starts target marked.bundle_name (split 47 clean) =
      subst (Starts target marked.bundle_name) (sym first) (m.kind_fits, m.same) in
    subst
      (λ r. Below target r.bundle_name (split 47 passed) × Named before.bundle_name r.bundle_name)
      kept (subst (λ c. Below target marked.bundle_name (split 47 c)) same (names, starts), m.named)

admit_member-Below :
    (target : Target) (name passed : Runes) (before after : Rules)
    → admit_member target (clean_archive_name name) before ≡ ok (some passed, after)
    → Below target after.bundle_name (split 47 passed) × Named before.bundle_name after.bundle_name
unfolding admit_member
admit_member-Below target name passed before after h =
    elim (Bool-cases (runes_eq (clean_archive_name name) (codes "."))) [
      | inl e ↦ absurd (ground arith)
      | inr e ↦
          admit_named-Below target (clean_archive_name name) passed before after
            (split-clean_archive_name name
              ((runes_eq-differ (clean_archive_name name) (codes ".")).0 e))
            (ground arith)
    ]

pub member_path-Below :
    (target : Target) (limits : Limits) (name passed : Runes) (before after : Rules)
    → member_path target limits name before ≡ ok (some passed, after)
    → Below target after.bundle_name (split 47 passed) × Named before.bundle_name after.bundle_name
unfolding member_path
member_path-Below target limits name passed before after h =
    let (a, h1) =
      guard-ok (ltb limits.entries (before.entries + 1)) too_many_members _ (some passed, after)
        h in
    let (b, h2) = guard-ok (runes_eq name []) empty_name _ (some passed, after) h1 in
    let (c, h3) =
      guard-ok (any (λ d. d == 92 || d == 0) name) foreign_separator _ (some passed, after) h2 in
    let (d, h4) = guard-ok (has_prefix name (codes "/")) absolute_name _ (some passed, after) h3 in
    admit_member-Below target name passed (record before { entries = before.entries + 1 }) after h4

admit_named-passes :
    (target : Target) (clean : Runes) (before after : Rules)
    → admit_named target clean before ≢ ok (none, after)
unfolding admit_named
admit_named-passes target clean before after h =
    let (a, h1) =
      guard-ok (any (runes_eq (codes "..")) (split 47 clean)) escapes _ (none, after) h in
    let (b, h2) = guard-ok (any (runes_eq clean) before.seen) duplicate _ (none, after) h1 in
    let (marked, h3, h4) =
      bind-ok (mark_bundle target clean (record before { seen = clean ∷ before.seen })) _
        (none, after) h2 in
    ground arith

admit_member-root :
    (target : Target) (clean : Runes) (before after : Rules)
    → admit_member target clean before ≡ ok (none, after)
    → after.bundle_name ≡ before.bundle_name
unfolding admit_member
admit_member-root target clean before after h = elim (Bool-cases (runes_eq clean (codes "."))) [
  | inl e ↦ ground arith
  | inr e ↦ absurd (admit_named-passes target clean before after (ground arith))
]

pub member_path-root :
    (target : Target) (limits : Limits) (name : Runes) (before after : Rules)
    → member_path target limits name before ≡ ok (none, after)
    → after.bundle_name ≡ before.bundle_name
unfolding member_path
member_path-root target limits name before after h =
    let (a, h1) =
      guard-ok (ltb limits.entries (before.entries + 1)) too_many_members _ (none, after) h in
    let (b, h2) = guard-ok (runes_eq name []) empty_name _ (none, after) h1 in
    let (c, h3) =
      guard-ok (any (λ d. d == 92 || d == 0) name) foreign_separator _ (none, after) h2 in
    let (d, h4) = guard-ok (has_prefix name (codes "/")) absolute_name _ (none, after) h3 in
    admit_member-root target (clean_archive_name name)
      (record before { entries = before.entries + 1 }) after h4
