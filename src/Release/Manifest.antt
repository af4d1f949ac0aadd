-- ===== src/Release/Manifest.antt =====
-- internal/application/updates/release.go: `manifestDigest` and `hexDigest`.
use filelist_streaming_servi.Base.{
  trim_prefix, ℕ, ◌≡◌, refl, Bool, true, false, not, ◌&&◌, ◌||◌, List, [], ◌∷◌, Runes, codes,
  Result, ok, err, leb, ◌==◌, if◌then◌else◌, runes_eq, is_space, to_lower, length, any, In, arith,
  map, All, ◌⊎◌, ◌≢◌, inl, inr, Bool-cases, ◌∙◌, ap,
}
use filelist_streaming_servi.Release.{ResolveError, checksum_manifest, split}

is_hex : ℕ → Bool
is_hex c = (leb 48 c && leb c 57) || ((leb 97 c && leb c 102) || (leb 65 c && leb c 70))

all_hex : Runes → Bool
unfolding is_hex
all_hex [] = true
all_hex (c ∷ s) = is_hex c && all_hex s

unfoldable pub hex_digest : Runes → Bool
unfolding all_hex
hex_digest text = length text == 64 && all_hex text

-- `strings.Fields`, from the right: a rune joins the field to its right when no space stands between.
push_field : ℕ → Bool → List Runes → List Runes
push_field c true (f ∷ fields) = (c ∷ f) ∷ fields
push_field c _ fields = (c ∷ []) ∷ fields

starts_field : Runes → Bool
unfolding is_space
starts_field [] = false
starts_field (c ∷ s) = not (is_space c)

unfoldable pub fields : Runes → List Runes
unfolding push_field starts_field is_space
fields [] = []
fields (c ∷ s) =
    let rest = fields s in if is_space c then rest else push_field c (starts_field s) rest

-- One line of the manifest: nothing, the checksum and file name of an entry, or malformed. A line whose
-- trimmed text is empty has no fields; a carriage return at its end is space.
pub data Line : Type 0 where
  blank : Line
  entry : Runes → Runes → Line
  malformed : Line

unfoldable pub read_line : Runes → Line
unfolding fields to_lower hex_digest trim_prefix
read_line line = elim (fields line) [
  | [] ↦ blank
  | sum ∷ file ∷ [] ↦
      if hex_digest (to_lower sum)
      then entry (to_lower sum) (trim_prefix file (codes "*"))
      else malformed
  | _ ↦ malformed
]

-- The loop of `manifestDigest`, with the file names seen and the digest found so far.
unfoldable pub read_entries : Runes → List Line → List Runes → Runes → Result ResolveError Runes
unfolding runes_eq
read_entries name [] seen digest = ok digest
read_entries name (blank ∷ lines) seen digest = read_entries name lines seen digest
read_entries name (malformed ∷ lines) seen digest = err checksum_manifest
read_entries name (entry sum file ∷ lines) seen digest =
    let rest = read_entries name lines (file ∷ seen) (if runes_eq file name then sum else digest) in
    if any (runes_eq file) seen then err checksum_manifest else rest

unfoldable pub lines_of : Runes → List Line
unfolding split read_line
lines_of text = map read_line (split 10 text)

-- An empty digest is that of a manifest without the entry.
accept : Result ResolveError Runes → Result ResolveError Runes
accept (ok []) = err checksum_manifest
accept (ok (c ∷ s)) = ok (c ∷ s)
accept (err e) = err e

unfoldable pub manifest_digest : Runes → Runes → Result ResolveError Runes
unfolding lines_of read_entries accept
manifest_digest text name = accept (read_entries name (lines_of text) [] [])

-- An entry for a name among the lines, with its checksum.
unfoldable pub Listed : Runes → Runes → List Line → Type 0
unfolding runes_eq
Listed name sum lines = (file : Runes) × (In (entry sum file) lines × (runes_eq file name ≡ true))

-- Every line that a manifest is read from is blank or an entry.
unfoldable pub AllReadable : List Line → Type 0
AllReadable lines = All (λ l. l ≢ malformed) lines

read_entries-readable :
    (name digest sum : Runes) (lines : List Line) (seen : List Runes)
    → read_entries name lines seen digest ≡ ok sum
    → AllReadable lines × ((sum ≡ digest) ⊎ Listed name sum lines)
unfolding read_entries AllReadable Listed
read_entries-readable name digest sum [] seen h = (tt, inl (ground arith))
read_entries-readable name digest sum (blank ∷ lines) seen h =
    let ih = read_entries-readable name digest sum lines seen h in
    (
      ((λ e. ground arith), ih.0),
      elim ih.1 [ inl e ↦ inl e | inr (f, (m, e)) ↦ inr (f, (inr m, e)) ],
    )
read_entries-readable name digest sum (malformed ∷ lines) seen h = ground arith
read_entries-readable name digest sum (entry s file ∷ lines) seen h =
    let next = if runes_eq file name then s else digest in
    let ih = read_entries-readable name next sum lines (file ∷ seen) (ground arith) in
    (
      ((λ e. ground arith), ih.0),
      elim ih.1 [
        | inr (f, (m, e)) ↦ inr (f, (inr m, e))
        | inl e ↦ elim (Bool-cases (runes_eq file name)) [
          | inl same ↦ inr (file, (inl (ap (λ v. entry v file) (e ∙ rw same refl)), same))
          | inr other ↦ inl (e ∙ rw other refl)
        ]
      ],
    )

accept-ok :
    (r : Result ResolveError Runes) (sum : Runes) → accept r ≡ ok sum → (r ≡ ok sum) × (sum ≢ [])
unfolding accept
accept-ok (ok []) sum h = ground arith
accept-ok (ok (c ∷ s)) sum h = (h, λ e. ground arith)
accept-ok (err e) sum h = ground arith

-- A digest that `manifestDigest` returns for a name is the checksum of an entry of that name, and every
-- line of the manifest is blank or an entry.
pub manifest_digest-Listed :
    (text name sum : Runes)
    → manifest_digest text name ≡ ok sum
    → Listed name sum (lines_of text) × AllReadable (lines_of text)
unfolding manifest_digest
manifest_digest-Listed text name sum h =
    let taken = accept-ok (read_entries name (lines_of text) [] []) sum h in
    let found = read_entries-readable name [] sum (lines_of text) [] taken.0 in
    elim found.1 [ inl e ↦ absurd (taken.1 e) | inr listed ↦ (listed, found.0) ]
