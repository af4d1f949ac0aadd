-- ===== src/Torrent/SafePaths.antt =====
-- Which paths `safeTorrentPath` of internal/application/torrentmeta.go gives out.
use filelist_streaming_servi.Base.{
  ℕ, ◌≡◌, ◌≢◌, ◌↔◌, refl, sym, inl, inr, Bool, true, false, some, List, [], ◌∷◌, if◌then◌else◌,
  ◌==◌, runes_eq-differ, codes, any, All, In, arith, Bool-cases, subst, All-in,
}
use filelist_streaming_servi.Release.{split, push_rune}
use filelist_streaming_servi.Torrent.{Bytes}
use filelist_streaming_servi.Torrent.Paths.{
  with_slashes, trim_front, trim_end, is_bad_part, accept_path, safe_torrent_path, SafePath,
}

abbrev pub Proper : Bytes → Type 0
Proper part = (part ≢ []) × (part ≢ codes ".") × (part ≢ codes "..")

is_bad_part-Proper : (part : Bytes) → (is_bad_part part ≡ false) ↔ Proper part
unfolding is_bad_part
is_bad_part-Proper part = ground (
  arith,
  runes_eq-differ part [],
  runes_eq-differ part (codes "."),
  runes_eq-differ part (codes ".."),
)

any-All : (parts : List Bytes) → (any is_bad_part parts ≡ false) ↔ All Proper parts
any-All [] = (λ h. tt, λ h. refl)
any-All (part ∷ parts) = ground (arith, is_bad_part-Proper part, any-All parts)

-- `trim_front` and `trim_end` change nothing where no part at that end is empty.
abbrev tail : List Bytes → List Bytes
tail [] = []
tail (part ∷ parts) = parts

abbrev ends_in_slash : Bytes → Bool
ends_in_slash [] = false
ends_in_slash (c ∷ []) = c == 47
ends_in_slash (c ∷ d ∷ s) = ends_in_slash (d ∷ s)

trim_end-fixed : (s : Bytes) → ends_in_slash s ≡ false → trim_end s ≡ s
unfolding trim_end
trim_end-fixed [] h = refl
trim_end-fixed (c ∷ []) h = rw (trim_end, h) refl
trim_end-fixed (c ∷ d ∷ s) h = rw (trim_end-fixed (d ∷ s) h) refl

tail-push_rune :
    (c : ℕ) (s : Bytes) (parts : List Bytes) → In s (tail parts) → In s (tail (push_rune c parts))
unfolding push_rune
tail-push_rune c s [] m = m
tail-push_rune c s (part ∷ parts) m = m

In-tail : (s : Bytes) (parts : List Bytes) → In s (tail parts) → In s parts
In-tail s [] m = m
In-tail s (part ∷ parts) m = inr m

In-split_end : (s : Bytes) → ends_in_slash s ≡ true → In [] (tail (split 47 s))
unfolding split
In-split_end [] h = absurd (ground arith)
In-split_end (c ∷ []) h = rw h (inl refl)
In-split_end (c ∷ d ∷ s) h = elim (Bool-cases (c == 47)) [
  | inl e ↦ rw e (In-tail [] (split 47 (d ∷ s)) (In-split_end (d ∷ s) h))
  | inr e ↦ rw e (tail-push_rune c [] (split 47 (d ∷ s)) (In-split_end (d ∷ s) h))
]

with_slashes-clean : (s : Bytes) → All (λ c. c ≢ 92) (with_slashes s)
unfolding with_slashes
with_slashes-clean [] = tt
with_slashes-clean (c ∷ s) = (ground arith, with_slashes-clean s)

with_slashes-fixed : (s : Bytes) → All (λ c. c ≢ 92) s → with_slashes s ≡ s
unfolding with_slashes
with_slashes-fixed [] h = refl
with_slashes-fixed (c ∷ s) h = ground (arith, with_slashes-fixed s h.1)

trim_front-clean : (s : Bytes) → All (λ c. c ≢ 92) s → All (λ c. c ≢ 92) (trim_front s)
unfolding trim_front
trim_front-clean [] h = tt
trim_front-clean (c ∷ s) h = ground (arith, trim_front-clean s h.1)

trim_end-clean : (s : Bytes) → All (λ c. c ≢ 92) s → All (λ c. c ≢ 92) (trim_end s)
unfolding trim_end
trim_end-clean [] h = tt
trim_end-clean (c ∷ s) h = ground (arith, trim_end-clean s h.1)

-- A path whose parts are proper starts and ends with none of the separators.
trims-fixed : (path : Bytes) → All Proper (split 47 path) → trim_end (trim_front path) ≡ path
unfolding split trim_front trim_end
trims-fixed [] a = refl
trims-fixed (c ∷ s) a = elim (Bool-cases (c == 47)) [
  | inl e ↦
      let h : In [] (split 47 (c ∷ s)) =
        subst (λ b. In [] (if b then [] ∷ split 47 s else push_rune c (split 47 s))) (sym e)
          (inl refl) in
      absurd ((All-in Proper [] (split 47 (c ∷ s)) a h).0 refl)
  | inr e ↦ elim (Bool-cases (ends_in_slash (c ∷ s))) [
    | inl f ↦ absurd (
        (All-in Proper [] (split 47 (c ∷ s)) a
            (In-tail [] (split 47 (c ∷ s)) (In-split_end (c ∷ s) f))).0
          refl)
    | inr f ↦ rw (trim_front, e) (trim_end-fixed (c ∷ s) f)
  ]
]

accept_path-some :
    (t path : Bytes)
    → accept_path t ≡ some path
    → (t ≡ path) × (any is_bad_part (split 47 t) ≡ false)
unfolding accept_path
accept_path-some [] path e = ground arith
accept_path-some (c ∷ s) path e = ground arith

accept_path-Proper : (path : Bytes) → All Proper (split 47 path) → accept_path path ≡ some path
unfolding accept_path
accept_path-Proper [] a = absurd (a.0.0 refl)
accept_path-Proper (c ∷ s) a =
    let e : any is_bad_part (split 47 (c ∷ s)) ≡ false = (any-All (split 47 (c ∷ s))).1 a in
    rw (accept_path, e) refl

pub SafePath-fixed : (path : Bytes) → SafePath path → safe_torrent_path path ≡ some path
unfolding safe_torrent_path SafePath
SafePath-fixed path h =
    rw (safe_torrent_path, with_slashes-fixed path h.1, trims-fixed path h.0)
      (accept_path-Proper path h.0)

-- The paths given out are exactly those without a backslash whose every part is a proper name.
pub safe_torrent_path_iff :
    (path : Bytes) → ((name : Bytes) × (safe_torrent_path name ≡ some path)) ↔ SafePath path
unfolding safe_torrent_path SafePath
safe_torrent_path_iff path = (accepted, λ h. (path, SafePath-fixed path h))
  where
    accepted : ((name : Bytes) × (safe_torrent_path name ≡ some path)) → SafePath path
    accepted (name, e) =
        let t : Bytes = trim_end (trim_front (with_slashes name)) in
        let (f, g) = accept_path-some t path e in
        subst SafePath f (
          (any-All (split 47 t)).0 g,
          trim_end-clean _ (trim_front-clean _ (with_slashes-clean name)),
        )
