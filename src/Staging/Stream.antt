-- ===== src/Staging/Stream.antt =====
-- The bounded copy of internal/application/updates/stage.go against its description: the whole body where it is in the
-- bound, and one byte more than the bound where it is not.
use mathlib.Core.List.{append_assoc, append-nil}
use filelist_streaming_servi.Base.{
  ℕ, zero, suc, ◌+◌, ◌-◌, ◌≤◌, ◌<◌, ◌≡◌, ◌≢◌, ◌↔◌, refl, sym, ◌∙◌, ap, Bool, true, false, not, List,
  [], ◌∷◌, ◌++◌, ◌==◌, leb, if◌then◌else◌, length, length-append, arith, Bool-cases, inl, inr,
  subst, guard-ok, ◌||◌, ok, Runes,
}
use filelist_streaming_servi.Release.Manifest.{hex_digest}
use filelist_streaming_servi.Torrent.{Bytes, first, beyond}
use filelist_streaming_servi.Staging.{
  Limits, Refusals, Reader, complete, crossed, broken, Copied, taken, left_over, bounded_room,
  put_before, copy_bounded, reads_of, accept_copy, stage_archive, same_digest, bad_checksum_text,
  bad_limits, no_destination, no_file, stream_failed, is_full, accept_ending,
}

-- The bytes of a body.
abbrev pub whole : List Bytes → Bytes
whole [] = []
whole (chunk ∷ chunks) = chunk ++ whole chunks

-- What the copy is to do: `left` is one more than the bound.
abbrev pub bounded_copy : ℕ → Bytes → Bool → Copied
bounded_copy left bytes fails =
    if leb left (length bytes)
    then record { written = first left bytes; ending = crossed }
    else record { written = bytes; ending = if fails then broken else complete }

first-append :
    (left : ℕ) (got rest : Bytes)
    → length got ≤ left
    → first left (got ++ rest) ≡ got ++ first (left - length got) rest
unfolding first
first-append left [] rest h = ap (λ n. first n rest) (omega arith)
first-append zero (b ∷ got) rest h = absurd (omega arith)
first-append (suc left) (b ∷ got) rest h =
    ap (λ s. b ∷ s)
      (first-append left got rest (omega arith) ∙ ap (λ n. got ++ first n rest) (omega arith))

bounded_copy-append :
    (left : ℕ) (got rest : Bytes) (fails : Bool)
    → length got ≤ left
    → bounded_copy left (got ++ rest) fails
      ≡ put_before got (bounded_copy (left - length got) rest fails)
bounded_copy-append left got rest fails h =
    let l : length (got ++ rest) ≡ length got + length rest = length-append got rest in
    elim (Bool-cases (leb (left - length got) (length rest))) [
      | inl e ↦
          let f : leb left (length (got ++ rest)) ≡ true = ground arith in
          rw (bounded_copy, e, f, first-append left got rest h) refl
      | inr e ↦
          let f : leb left (length (got ++ rest)) ≡ false = ground arith in
          rw (bounded_copy, e, f) refl
    ]

first-beyond : (n : ℕ) (bytes : Bytes) → bytes ≡ first n bytes ++ beyond n bytes
unfolding first beyond
first-beyond zero bytes = refl
first-beyond (suc n) [] = refl
first-beyond (suc n) (b ∷ bytes) = ap (λ s. b ∷ s) (first-beyond n bytes)

bounded_copy-zero :
    (bytes : Bytes) (fails : Bool)
    → (record { written = []; ending = crossed }) ≡ bounded_copy 0 bytes fails
unfolding first
bounded_copy-zero bytes fails =
    let e : leb 0 (length bytes) ≡ true = ground arith in rw (bounded_copy, e) refl

-- One read takes the data from the front.
taken-whole :
    (room : ℕ) (chunk : Bytes) (chunks : List Bytes)
    → chunk ++ whole chunks ≡ taken room chunk ++ whole (left_over room chunk chunks)
unfolding taken left_over
taken-whole room chunk chunks = elim (Bool-cases (leb (length chunk) room)) [
  | inl e ↦ rw (taken, left_over, e) refl
  | inr e ↦
      rw (taken, left_over, e)
        (ap (λ s. s ++ whole chunks) (first-beyond room chunk)
          ∙ append_assoc (first room chunk) (beyond room chunk) (whole chunks))
]

length-first : (n : ℕ) (bytes : Bytes) → length (first n bytes) ≤ n
unfolding first
length-first zero bytes = omega arith
length-first (suc n) [] = omega arith
length-first (suc n) (b ∷ bytes) = omega (arith, length-first n bytes)

length-beyond-le : (n : ℕ) (bytes : Bytes) → length (beyond n bytes) ≤ length bytes
unfolding beyond
length-beyond-le zero bytes = omega arith
length-beyond-le (suc n) [] = omega arith
length-beyond-le (suc n) (b ∷ bytes) = omega (arith, length-beyond-le n bytes)

length-beyond-lt :
    (n : ℕ) (bytes : Bytes) → 0 < n → n < length bytes → length (beyond n bytes) < length bytes
unfolding beyond
length-beyond-lt zero bytes p h = absurd (omega arith)
length-beyond-lt (suc n) [] p h = absurd (omega arith)
length-beyond-lt (suc n) (b ∷ bytes) p h = omega (arith, length-beyond-le n bytes)

length-taken : (room : ℕ) (chunk : Bytes) → length (taken room chunk) ≤ room
unfolding taken
length-taken room chunk = ground (arith, length-first room chunk)

reads_of-left_over :
    (room : ℕ) (chunk : Bytes) (chunks : List Bytes)
    → 0 < room
    → reads_of (left_over room chunk chunks) < reads_of (chunk ∷ chunks)
unfolding left_over reads_of
reads_of-left_over room chunk chunks p = elim (Bool-cases (leb (length chunk) room)) [
  | inl e ↦ rw (left_over, e) (omega arith)
  | inr e ↦ rw (left_over, e) (ground (arith, length-beyond-lt room chunk p))
]

reads_of-pos : (chunks : List Bytes) → 0 < reads_of chunks
unfolding reads_of
reads_of-pos [] = omega arith
reads_of-pos (chunk ∷ chunks) = omega (arith, reads_of-pos chunks)

bounded_room-le : (left : ℕ) → (bounded_room left ≤ left) × (0 < left → 0 < bounded_room left)
unfolding bounded_room
bounded_room-le left = ground arith

-- A read that does not cross the bound is followed by the copy of the rest.
read_on :
    (left : ℕ) (got rest : Bytes) (copied : Copied) (fails : Bool)
    → length got ≤ suc left
    → copied ≡ bounded_copy (suc left - length got) rest fails
    → (if length got == suc left
        then record { written = got; ending = crossed }
        else put_before got copied)
      ≡ bounded_copy (suc left) (got ++ rest) fails
read_on left got rest copied fails h e = elim (Bool-cases (length got == suc left)) [
  | inl f ↦
      let none_left : suc left - length got ≡ 0 = ground arith in
      rw (f, bounded_copy-append (suc left) got rest fails h, none_left)
        (ap (λ w. record { written = w; ending = crossed }) (sym (append-nil got))
          ∙ ap (put_before got) (bounded_copy-zero rest fails))
  | inr f ↦ rw (f, bounded_copy-append (suc left) got rest fails h) (ap (put_before got) e)
]

-- The copy does what it is to do, and never runs out of reads.
copy_bounded-bounded_copy :
    (fuel left : ℕ) (chunks : List Bytes) (fails : Bool)
    → reads_of chunks ≤ fuel
    → copy_bounded fuel left chunks fails ≡ bounded_copy left (whole chunks) fails
unfolding copy_bounded reads_of
copy_bounded-bounded_copy zero left chunks fails h = absurd (omega (arith, reads_of-pos chunks))
copy_bounded-bounded_copy (suc fuel) zero chunks fails h = bounded_copy-zero (whole chunks) fails
copy_bounded-bounded_copy (suc fuel) (suc left) [] fails h =
    let e : leb (suc left) 0 ≡ false = ground arith in rw (bounded_copy, e) refl
copy_bounded-bounded_copy (suc fuel) (suc left) (chunk ∷ chunks) fails h =
    let room : ℕ = bounded_room (suc left) in
    let fits : length (taken room chunk) ≤ suc left =
      omega (arith, length-taken room chunk, bounded_room-le (suc left)) in
    let rest : List Bytes = left_over room chunk chunks in
    read_on left (taken room chunk) (whole rest) _ fails fits (
      copy_bounded-bounded_copy fuel (suc left - length (taken room chunk)) rest fails (
        omega (
          arith,
          reads_of-left_over room chunk chunks ((bounded_room-le (suc left)).1 (omega arith)),
          h,
        )))
    ∙ ap (λ bytes. bounded_copy (suc left) bytes fails) (sym (taken-whole room chunk chunks))

-- A body that is staged.
pub record IsStaged (sha256 : Bytes → Runes) (checksum : Runes) (limits : Limits)
    (refusals : Refusals) (body : Reader) (content : Bytes) : Type 0 where
  pub checksum_text : hex_digest checksum ≡ true
  pub compressed_set : limits.compressed ≢ 0
  pub expanded_set : limits.expanded ≢ 0
  pub entries_set : limits.entries ≢ 0
  pub nothing_refused :
      (refusals.make_dir ≡ false)
      × (refusals.create ≡ false)
      × (is_full refusals content ≡ false)
      × (refusals.flush ≡ false)
      × (refusals.close ≡ false)
  pub read_to_end : body.fails ≡ false
  pub content_whole : content ≡ whole body.chunks
  pub in_bound : length content ≤ limits.compressed
  pub digest_matches : same_digest sha256 content checksum ≡ true

stage_archive-copied :
    (sha256 : Bytes → Runes) (checksum : Runes) (limits : Limits) (refusals : Refusals)
    (body : Reader)
    → copy_bounded (reads_of body.chunks) (limits.compressed + 1) body.chunks body.fails
      ≡ bounded_copy (limits.compressed + 1) (whole body.chunks) body.fails
stage_archive-copied sha256 checksum limits refusals body =
    copy_bounded-bounded_copy (reads_of body.chunks) (limits.compressed + 1) body.chunks body.fails
      (omega arith)

accept_ending-whole :
    (sha256 : Bytes → Runes) (checksum : Runes) (bound : ℕ) (refusals : Refusals)
    (bytes content : Bytes) (fails : Bool)
    → accept_ending sha256 checksum refusals (bounded_copy (bound + 1) bytes fails) ≡ ok content
    → (refusals.flush ≡ false)
      × (refusals.close ≡ false)
      × (fails ≡ false)
      × (content ≡ bytes)
      × (length bytes ≤ bound)
      × (same_digest sha256 bytes checksum ≡ true)
unfolding accept_ending
accept_ending-whole sha256 checksum bound refusals bytes content fails h =
    elim (Bool-cases (same_digest sha256 bytes checksum)) [
      | inl e ↦ ground arith
      | inr e ↦ ground arith
    ]

bounded_copy-fits :
    (bound : ℕ) (bytes : Bytes) (fails : Bool)
    → length bytes ≤ bound
    → (bounded_copy (bound + 1) bytes fails).written ≡ bytes
bounded_copy-fits bound bytes fails h =
    let f : leb (bound + 1) (length bytes) ≡ false = ground arith in rw (bounded_copy, f) refl

accept_copy-whole :
    (sha256 : Bytes → Runes) (checksum : Runes) (bound : ℕ) (refusals : Refusals)
    (bytes content : Bytes) (fails : Bool)
    → accept_copy sha256 checksum refusals (bounded_copy (bound + 1) bytes fails) ≡ ok content
    → (is_full refusals content ≡ false)
      × (refusals.flush ≡ false)
      × (refusals.close ≡ false)
      × (fails ≡ false)
      × (content ≡ bytes)
      × (length bytes ≤ bound)
      × (same_digest sha256 bytes checksum ≡ true)
unfolding accept_copy
accept_copy-whole sha256 checksum bound refusals bytes content fails h =
    let copied = bounded_copy (bound + 1) bytes fails in
    let (room, h') = guard-ok (is_full refusals copied.written) stream_failed _ content h in
    let w = accept_ending-whole sha256 checksum bound refusals bytes content fails h' in
    let same = bounded_copy-fits bound bytes fails w.4 ∙ sym w.3 in
    (subst (λ b. is_full refusals b ≡ false) same room, w.0, w.1, w.2, w.3, w.4, w.5)

accept_copy-content :
    (sha256 : Bytes → Runes) (checksum : Runes) (bound : ℕ) (refusals : Refusals) (bytes : Bytes)
    → is_full refusals bytes ≡ false
    → refusals.flush ≡ false
    → refusals.close ≡ false
    → length bytes ≤ bound
    → same_digest sha256 bytes checksum ≡ true
    → accept_copy sha256 checksum refusals (bounded_copy (bound + 1) bytes false) ≡ ok bytes
unfolding accept_copy accept_ending
accept_copy-content sha256 checksum bound refusals bytes room flush close h e =
    let f : leb (bound + 1) (length bytes) ≡ false = ground arith in
    let g : bounded_copy (bound + 1) bytes false ≡ record { written = bytes; ending = complete } =
      rw (bounded_copy, f) refl in
    subst (λ k. accept_copy sha256 checksum refusals k ≡ ok bytes) (sym g)
      (rw (accept_copy, room, accept_ending, flush, close, e) refl)

-- An archive is staged, and then its file holds the whole body, exactly where the checksum is 64
-- hexadecimal digits, the limits are set, the file system refuses nothing, the file takes the whole body,
-- and the body is read to its end, is within the bound and has the checksum.
pub stage_archive_iff :
    (sha256 : Bytes → Runes) (checksum : Runes) (limits : Limits) (refusals : Refusals)
    (body : Reader) (content : Bytes)
    → (stage_archive sha256 checksum limits refusals body ≡ ok content)
      ↔ IsStaged sha256 checksum limits refusals body content
unfolding stage_archive
stage_archive_iff sha256 checksum limits refusals body content = (staged, accepted)
  where
    copied :
        copy_bounded (reads_of body.chunks) (limits.compressed + 1) body.chunks body.fails
        ≡ bounded_copy (limits.compressed + 1) (whole body.chunks) body.fails
    copied =
        copy_bounded-bounded_copy (reads_of body.chunks) (limits.compressed + 1) body.chunks
          body.fails (omega arith)

    staged :
        stage_archive sha256 checksum limits refusals body ≡ ok content
        → IsStaged sha256 checksum limits refusals body content
    staged h =
        let (c, h1) = guard-ok (not (hex_digest checksum)) bad_checksum_text _ content h in
        let (l, h2) =
          guard-ok (limits.compressed == 0 || limits.expanded == 0 || limits.entries == 0)
            bad_limits _ content h1 in
        let (d, h3) = guard-ok refusals.make_dir no_destination _ content h2 in
        let (f, h4) = guard-ok refusals.create no_file _ content h3 in
        let w =
          accept_copy-whole sha256 checksum limits.compressed refusals (whole body.chunks) content
            body.fails
            (subst (λ k. accept_copy sha256 checksum refusals k ≡ ok content) copied h4) in
        record {
          checksum_text = ground arith;
          compressed_set = ground arith;
          expanded_set = ground arith;
          entries_set = ground arith;
          nothing_refused = (d, f, w.0, w.1, w.2);
          read_to_end = w.3;
          content_whole = w.4;
          in_bound = subst (λ k. length k ≤ limits.compressed) (sym w.4) w.5;
          digest_matches = subst (λ k. same_digest sha256 k checksum ≡ true) (sym w.4) w.6;
        }

    accepted :
        IsStaged sha256 checksum limits refusals body content
        → stage_archive sha256 checksum limits refusals body ≡ ok content
    accepted s =
        let set : (limits.compressed == 0 || limits.expanded == 0 || limits.entries == 0) ≡ false =
          ground arith in
        rw (stage_archive, s.checksum_text, set, s.nothing_refused.0, s.nothing_refused.1)
          (subst (λ k. accept_copy sha256 checksum refusals k ≡ ok content) (sym copied)
            (rw (s.read_to_end, ← s.content_whole)
              (accept_copy-content sha256 checksum limits.compressed refusals content
                s.nothing_refused.2 s.nothing_refused.3 s.nothing_refused.4 s.in_bound
                s.digest_matches)))
