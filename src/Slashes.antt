-- ===== src/Slashes.antt =====
-- Texts with slashes and the parts between them: `strings.Split(name, "/")` against `strings.Join`.
use filelist_streaming_servi.Base.{
  ℕ, ◌≡◌, ◌≢◌, ◌∙◌, refl, ap, false, List, [], ◌∷◌, ◌++◌, Runes, All, arith, ◌==◌, Bool-cases, inl,
  inr,
}
use filelist_streaming_servi.Release.{split, push_rune}

abbrev pub join : Runes → List Runes → Runes
join p [] = p
join p (q ∷ ps) = p ++ (47 ∷ join q ps)

abbrev pub NoSlash : Runes → Type 0
NoSlash p = All (λ c. c ≢ 47) p

split-NoSlash_text : (p : Runes) → NoSlash p → split 47 p ≡ p ∷ []
unfolding split
split-NoSlash_text [] a = refl
split-NoSlash_text (c ∷ p) a =
    let e : (c == 47) ≡ false = ground arith in rw (split, split-NoSlash_text p a.1, e) refl

split-slash : (p rest : Runes) → NoSlash p → split 47 (p ++ (47 ∷ rest)) ≡ p ∷ split 47 rest
unfolding split
split-slash [] rest a = refl
split-slash (c ∷ p) rest a =
    let e : (c == 47) ≡ false = ground arith in rw (split, split-slash p rest a.1, e) refl

pub split-join :
    (p : Runes) (ps : List Runes) → All NoSlash (p ∷ ps) → split 47 (join p ps) ≡ p ∷ ps
split-join p [] a = split-NoSlash_text p a.0
split-join p (q ∷ ps) a =
    split-slash p (join q ps) a.0 ∙ ap (λ parts. p ∷ parts) (split-join q ps a.1)

push_rune-NoSlash :
    (c : ℕ) (parts : List Runes) → c ≢ 47 → All NoSlash parts → All NoSlash (push_rune c parts)
unfolding push_rune
push_rune-NoSlash c [] h a = ((h, tt), tt)
push_rune-NoSlash c (p ∷ parts) h a = ((h, a.0), a.1)

-- No part has a slash.
pub split-NoSlash : (s : Runes) → All NoSlash (split 47 s)
unfolding split
split-NoSlash [] = (tt, tt)
split-NoSlash (c ∷ s) = elim (Bool-cases (c == 47)) [
  | inl e ↦ rw (All, e) (tt, split-NoSlash s)
  | inr e ↦ rw (e) (push_rune-NoSlash c (split 47 s) (ground arith) (split-NoSlash s))
]
