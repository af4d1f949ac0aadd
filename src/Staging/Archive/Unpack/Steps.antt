-- ===== src/Staging/Archive/Unpack/Steps.antt =====
-- Where the single steps of the extraction of internal/application/updates/stage.go write.
use filelist_streaming_servi.Base.{
  ℕ, ◌≡◌, ◌≢◌, refl, sym, ◌∙◌, ap, Bool, true, false, not, ◌||◌, List, [], ◌∷◌, Runes, codes,
  Result, ok, err, ltb, All, arith, Bool-cases, Result-cases, inl, inr, guard-ok, has_prefix,
  runes_eq_refl, runes_eq-equal,
}
use filelist_streaming_servi.Release.{split}
use filelist_streaming_servi.Staging.{Limits}
use filelist_streaming_servi.Staging.Archive.{
  path_join, before_last_slash, ArchiveError, Target, Rules, is_bundle, is_bundle_name,
  first_path_element, is_outside, link_outside_bundle, absolute_link, link_escapes, account_size,
  check_link_target, path_clean,
}
use filelist_streaming_servi.Staging.Archive.Names.{Kept}
use filelist_streaming_servi.Staging.Archive.Unpack.{
  DiskEffect, make_dir, write_file, make_link, Host, Member, Extraction, Unpacking, going, stopped,
  ◌then_go◌, ask_host, checked, parent, unpack_regular, unpack_link, write_file_verified,
  stream_member, open_content,
}

-- A name that leads from a directory into it, never out of it.
abbrev pub IsName : Runes → Type 0
IsName part = Kept part × (part ≢ codes "..")

-- The first name: the bundle in an archive of the bundle flavor, no bundle in another.
abbrev pub Starts : Target → Runes → List Runes → Type 0
Starts target bundle [] = Unit
Starts target bundle (p ∷ ps) =
    (is_bundle_name p ≡ is_bundle target) × (is_bundle target ≡ true → p ≡ bundle)

abbrev pub Below : Target → Runes → List Runes → Type 0
Below target bundle path = All IsName path × Starts target bundle path

-- Followed from the directory of the link `clean`, by names alone, the text of a link ends at a place that
-- is not the extraction root and has the link's own first name.
abbrev pub Inward : Runes → Runes → Type 0
Inward clean text =
    let place = path_clean (path_join (path_clean (before_last_slash clean)) text) in
    (place ≢ codes ".") × (first_path_element place ≡ first_path_element clean)

-- A link stands in a bundle, is relative, and its text leads, by names, from its directory to a place in
-- the bundle.
abbrev pub Confined : Target → Runes → DiskEffect → Type 0
Confined target bundle (make_dir path) = Below target bundle path
Confined target bundle (write_file path size) = Below target bundle path
Confined target bundle (make_link path text) =
    Below target bundle path
    × (is_bundle target ≡ true)
    × (has_prefix text (codes "/") ≡ false)
    × ((clean : Runes) × (path ≡ split 47 clean) × Inward clean text)

abbrev pub state_of : Unpacking → Extraction
state_of (going s) = s
state_of (stopped e s) = s

-- The effects so far are confined, and the bundle is `bundle`.
abbrev pub Keeps : Target → Runes → Extraction → Type 0
Keeps target bundle s = (s.rules.bundle_name ≡ bundle) × All (Confined target bundle) s.effects

-- The bundle is named once.
abbrev pub Named : Runes → Runes → Type 0
Named b c = b ≢ [] → c ≡ b

Below-renamed :
    (target : Target) (b c : Runes) (path : List Runes)
    → Named b c
    → Below target b path
    → Below target c path
Below-renamed target b c [] n h = (tt, tt)
Below-renamed target b c (p ∷ ps) n h =
    (h.0, (h.1.0, λ e. h.1.1 e ∙ sym (n (λ f. h.0.0.0.1 (h.1.1 e ∙ f)))))

pub Confined-renamed :
    (target : Target) (b c : Runes) (effect : DiskEffect)
    → Named b c
    → Confined target b effect
    → Confined target c effect
Confined-renamed target b c (make_dir path) n h = Below-renamed target b c path n h
Confined-renamed target b c (write_file path size) n h = Below-renamed target b c path n h
Confined-renamed target b c (make_link path text) n h =
    (Below-renamed target b c path n h.0, h.1, h.2, h.3)

pub Keeps-then :
    (target : Target) (b : Runes) (q : Unpacking) (f : Extraction → Unpacking)
    → Keeps target b (state_of q)
    → ((s : Extraction) → Keeps target b s → Keeps target b (state_of (f s)))
    → Keeps target b (state_of (q then_go f))
Keeps-then target b (going s) f k h = h s k
Keeps-then target b (stopped e s) f k h = k

pub Keeps-ask_host :
    (target : Target) (b : Runes) (host : Host) (effect : DiskEffect) (s : Extraction)
    → Confined target b effect
    → Keeps target b s
    → Keeps target b (state_of (ask_host host effect s))
unfolding ask_host
Keeps-ask_host target b host effect s c k = elim (Bool-cases (host.refuses s.effects effect)) [
  | inl e ↦ rw (ask_host, e) k
  | inr e ↦ rw (ask_host, e) (k.0, (c, k.1))
]

pub Keeps-checked :
    (target : Target) (b : Runes) (r : Result ArchiveError Rules) (s : Extraction)
    → ((rules : Rules) → r ≡ ok rules → rules.bundle_name ≡ s.rules.bundle_name)
    → Keeps target b s
    → Keeps target b (state_of (checked r s))
Keeps-checked target b (ok rules) s h k = (h rules refl ∙ k.0, k.1)
Keeps-checked target b (err e) s h k = k

pub account_size-bundle :
    (limits : Limits) (size : ℕ) (before after : Rules)
    → account_size limits size before ≡ ok after
    → after.bundle_name ≡ before.bundle_name
unfolding account_size
account_size-bundle limits size before after e = ground arith

pub Keeps-stream_member :
    (target : Target) (b : Runes) (member : Member) (s : Extraction)
    → Keeps target b s
    → Keeps target b (state_of (stream_member member s))
unfolding stream_member
Keeps-stream_member target b member s k = elim (Bool-cases (ltb member.delivered member.size)) [
  | inl e ↦ elim (Bool-cases member.breaks) [
    | inl f ↦ rw (stream_member, e, f) k
    | inr f ↦ rw (stream_member, e, f) k
  ]
  | inr e ↦ rw (stream_member, e) k
]

pub Keeps-open_content :
    (target : Target) (b : Runes) (locked : Bool) (s : Extraction)
    → Keeps target b s
    → Keeps target b (state_of (open_content locked s))
Keeps-open_content target b true s k = k
Keeps-open_content target b false s k = k

All-parent : (path : List Runes) → All IsName path → All IsName (parent path)
unfolding parent
All-parent [] a = tt
All-parent (p ∷ []) a = tt
All-parent (p ∷ q ∷ ps) a = (a.0, All-parent (q ∷ ps) a.1)

Below-parent :
    (target : Target) (b : Runes) (path : List Runes)
    → Below target b path
    → Below target b (parent path)
unfolding parent
Below-parent target b [] h = h
Below-parent target b (p ∷ []) h = (tt, tt)
Below-parent target b (p ∷ q ∷ ps) h = ((h.0.0, All-parent (q ∷ ps) h.0.1), h.1)

pub Keeps-unpack_regular :
    (target : Target) (b : Runes) (host : Host) (limits : Limits) (dest : List Runes)
    (locked : Bool) (member : Member) (s : Extraction)
    → Below target b dest
    → Keeps target b s
    → Keeps target b (state_of (unpack_regular host limits dest locked member s))
unfolding unpack_regular write_file_verified
Keeps-unpack_regular target b host limits dest locked member s d k =
    let sized : Unpacking = checked (account_size limits member.size s.rules) s in
    let made : Unpacking = sized then_go ask_host host (make_dir (parent dest)) in
    Keeps-then target b (made then_go open_content locked) (write_file_verified host dest member)
      (Keeps-then target b made (open_content locked)
        (Keeps-then target b sized (ask_host host (make_dir (parent dest)))
          (Keeps-checked target b (account_size limits member.size s.rules) s
            (λ r e. account_size-bundle limits member.size s.rules r e) k)
          (λ t.
            Keeps-ask_host target b host (make_dir (parent dest)) t (Below-parent target b dest d)))
        (Keeps-open_content target b locked))
      (λ t l.
        Keeps-then target b (ask_host host (write_file dest member.size) t) (stream_member member)
          (Keeps-ask_host target b host (write_file dest member.size) t d l)
          (Keeps-stream_member target b member))

bundle_only :
    (target : Target) (named : Bool)
    → (not (is_bundle target) || not named) ≡ false
    → is_bundle target ≡ true
bundle_only target named h = ground arith

Inward-is_outside : (clean link : Runes) → is_outside clean link ≡ false → Inward clean link
unfolding is_outside
Inward-is_outside clean link h =
    let place = path_clean (path_join (path_clean (before_last_slash clean)) link) in
    (
      λ e. absurd (ground (arith, runes_eq_refl place)),
      runes_eq-equal (first_path_element place) (first_path_element clean) (ground arith),
    )

pub check_link_target-ok :
    (target : Target) (clean link : Runes) (before after : Rules)
    → check_link_target target clean link before ≡ ok after
    → (after ≡ before)
      × (is_bundle target ≡ true)
      × (has_prefix link (codes "/") ≡ false)
      × Inward clean link
unfolding check_link_target
check_link_target-ok target clean link before after e =
    let (a, e1) =
      guard-ok (not (is_bundle target) || not (is_bundle_name (first_path_element clean)))
        link_outside_bundle _ after e in
    let (b, e2) = guard-ok (has_prefix link (codes "/")) absolute_link _ after e1 in
    let (c, e3) = guard-ok (is_outside clean link) link_escapes (ok before) after e2 in
    (ground arith, bundle_only target _ a, b, Inward-is_outside clean link c)

pub Keeps-unpack_link :
    (target : Target) (b : Runes) (host : Host) (clean link : Runes) (s : Extraction)
    → Below target b (split 47 clean)
    → Keeps target b s
    → Keeps target b (state_of (unpack_link host target clean link s))
unfolding unpack_link
Keeps-unpack_link target b host clean link s d k =
    elim (Result-cases (check_link_target target clean link s.rules)) [
      | inr (e, f) ↦ rw (unpack_link, f) k
      | inl (rules, f) ↦
          let (same, bundle, relative, inward) =
            check_link_target-ok target clean link s.rules rules f in
          let made : Unpacking =
            ask_host host (make_dir (parent (split 47 clean))) (record s { rules = rules }) in
          rw (unpack_link, f)
            (Keeps-then target b made (ask_host host (make_link (split 47 clean) link))
              (Keeps-ask_host target b host (make_dir (parent (split 47 clean))) _
                (Below-parent target b (split 47 clean) d)
                (ap (λ r. r.bundle_name) same ∙ k.0, k.1))
              (λ t.
                Keeps-ask_host target b host (make_link (split 47 clean) link) t
                  (d, bundle, relative, (clean, refl, inward))))
    ]
