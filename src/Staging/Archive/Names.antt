-- ===== src/Staging/Archive/Names.antt =====
-- What `cleanArchiveName` of internal/application/updates/stage.go gives: a path whose parts are names.
use mathlib.Core.List.{reverse, reverse-cons}
use filelist_streaming_servi.Base.{
  ℕ, ◌≡◌, ◌≢◌, refl, sym, ap, ◌∙◌, false, ◌||◌, List, [], ◌∷◌, Runes, codes, ◌==◌, runes_eq,
  runes_eq-differ, has_prefix, trim_prefix, All, All-append, All-mono, subst, arith, Bool-cases,
  inl, inr,
}
use filelist_streaming_servi.Release.{split}
use filelist_streaming_servi.Slashes.{NoSlash, split-join, split-NoSlash}
use filelist_streaming_servi.Staging.Archive.{
  step_up, clean_stack, text_of, trim_slash, clean_archive_name,
}

-- A part that `path.Clean` keeps.
abbrev pub Kept : Runes → Type 0
Kept part = NoSlash part × (part ≢ []) × (part ≢ codes ".")

parent_part : Kept (codes "..")
parent_part = ground arith

step_up-Kept : (stack : List Runes) → All Kept stack → All Kept (step_up stack)
unfolding step_up
step_up-Kept [] a = (parent_part, tt)
step_up-Kept (top ∷ stack) a = elim (Bool-cases (runes_eq top (codes ".."))) [
  | inl e ↦ rw (All, e) (parent_part, a)
  | inr e ↦ rw e a.1
]

clean_stack-Kept :
    (stack parts : List Runes)
    → All Kept stack
    → All NoSlash parts
    → All Kept (clean_stack stack parts)
unfolding clean_stack
clean_stack-Kept stack [] k a = k
clean_stack-Kept stack (part ∷ parts) k a =
    elim (Bool-cases (runes_eq part [] || runes_eq part (codes "."))) [
      | inl e ↦ rw (clean_stack, e) (clean_stack-Kept stack parts k a.1)
      | inr e ↦ elim (Bool-cases (runes_eq part (codes ".."))) [
        | inl f ↦
            rw (clean_stack, e, f)
              (clean_stack-Kept (step_up stack) parts (step_up-Kept stack k) a.1)
        | inr f ↦
            let named : (part ≢ []) × (part ≢ codes ".") =
              ground (arith, runes_eq-differ part [], runes_eq-differ part (codes ".")) in
            rw (clean_stack, e, f)
              (clean_stack-Kept (part ∷ stack) parts ((a.0, named.0, named.1), k) a.1)
      ]
    ]

All-reverse : (P : Runes → Type 0) (xs : List Runes) → All P xs → All P (reverse xs)
All-reverse P [] a = tt
All-reverse P (x ∷ xs) a =
    subst (All P) (sym (reverse-cons x xs))
      (All-append P (reverse xs) (x ∷ []) (All-reverse P xs a.1) (a.0, tt))

-- The parts that a name is cleaned to.
unfoldable pub clean_parts : Runes → List Runes
unfolding clean_stack trim_slash split
clean_parts name = reverse (clean_stack [] (split 47 (trim_slash name)))

pub clean_parts-Kept : (name : Runes) → All Kept (clean_parts name)
unfolding clean_parts
clean_parts-Kept name =
    All-reverse Kept _
      (clean_stack-Kept [] (split 47 (trim_slash name)) tt (split-NoSlash (trim_slash name)))

split-text_of :
    (ps : List Runes) → All Kept ps → text_of ps ≢ codes "." → All Kept (split 47 (text_of ps))
split-text_of [] a h = absurd (h refl)
split-text_of (p ∷ ps) a h =
    subst (All Kept) (sym (split-join p ps (All-mono Kept NoSlash (p ∷ ps) (λ q k. k.0) a))) a

not_dot : (c : ℕ) → (c ∷ []) ≢ codes "." → (c == 46) ≡ false
not_dot c h = elim (Bool-cases (c == 46)) [
  | inl e ↦ absurd (h (ap (λ d. d ∷ []) (ground arith)))
  | inr e ↦ e
]

-- No cleaned name begins with `./`.
dot_slash : (ps : List Runes) → All Kept ps → has_prefix (text_of ps) (codes "./") ≡ false
unfolding has_prefix
dot_slash [] a = refl
dot_slash ([] ∷ ps) a = absurd (a.0.1 refl)
dot_slash ((c ∷ []) ∷ []) a = ground arith
dot_slash ((c ∷ []) ∷ q ∷ ps) a =
    let e : (c == 46) ≡ false = not_dot c a.0.2 in rw (has_prefix, e) refl
dot_slash ((c ∷ d ∷ p) ∷ []) a = let e : (d == 47) ≡ false = ground arith in ground arith
dot_slash ((c ∷ d ∷ p) ∷ q ∷ ps) a = let e : (d == 47) ≡ false = ground arith in ground arith

trim_prefix-absent : (s p : Runes) → has_prefix s p ≡ false → trim_prefix s p ≡ s
unfolding trim_prefix
trim_prefix-absent s p e = rw e refl

pub clean_archive_name-text_of :
    (name : Runes) → clean_archive_name name ≡ text_of (clean_parts name)
unfolding clean_archive_name clean_parts
clean_archive_name-text_of name =
    trim_prefix-absent (text_of (clean_parts name)) (codes "./")
      (dot_slash (clean_parts name) (clean_parts-Kept name))

-- A cleaned name that is not the archive root is the text of its parts.
pub split-clean_archive_name :
    (name : Runes)
    → clean_archive_name name ≢ codes "."
    → All Kept (split 47 (clean_archive_name name))
split-clean_archive_name name h =
    let e : clean_archive_name name ≡ text_of (clean_parts name) =
      clean_archive_name-text_of name in
    rw e (split-text_of (clean_parts name) (clean_parts-Kept name) (λ f. h (e ∙ f)))
