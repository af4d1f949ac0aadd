-- ===== src/Base/Strings.antt =====
-- A Go string that the program walks is the list of its code points, and so are the literals that
-- it is compared with. What the source takes from the package `strings` on such text.
use Prim.Native.Nat.{ℕ, ◌+◌}
use Prim.Native.Char.{code}
use Prim.Native.String.{String}
use mathlib.Core.Path.{◌≡◌, refl, sym, subst}
use mathlib.Core.Logic.{◌≢◌, ◌↔◌, inl, inr}
use native.Mathlib.Omega.{arith}
use mathlib.Core.Bool.{Bool, true, false, ◌&&◌, ◌||◌}
use mathlib.Core.List.{List, [], ◌∷◌, map, reverse}
use filelist_streaming_servi.Base.Tests.{if◌then◌else◌, leb, ◌==◌, Bool-cases}

abbrev pub Runes : Type 0
Runes = List ℕ

abbrev pub codes : String → Runes
codes String.[] = []
codes (String.◌∷◌ c s) = code c ∷ codes s

unfoldable pub runes_eq : Runes → Runes → Bool
runes_eq [] [] = true
runes_eq (c ∷ s) (d ∷ t) = if c == d then runes_eq s t else false
runes_eq _ _ = false

pub runes_eq-equal : (s t : Runes) → runes_eq s t ≡ true → s ≡ t
unfolding runes_eq
runes_eq-equal [] [] e = refl
runes_eq-equal [] (d ∷ t) e = ground arith
runes_eq-equal (c ∷ s) [] e = ground arith
runes_eq-equal (c ∷ s) (d ∷ t) e = ground (arith, runes_eq-equal s t)

pub runes_eq_refl : (s : Runes) → runes_eq s s ≡ true
unfolding runes_eq
runes_eq_refl [] = refl
runes_eq_refl (c ∷ s) = ground (arith, runes_eq_refl s)

differ : {s t : Runes} → t ≡ s → runes_eq s t ≡ false → ⊥
differ {s} {t} p e =
    let h : runes_eq s s ≡ false = subst (λ r. runes_eq s r ≡ false) p e in
    ground (arith, runes_eq_refl s)

pub runes_eq-differ : (s t : Runes) → (runes_eq s t ≡ false) ↔ (s ≢ t)
runes_eq-differ s t = elim (Bool-cases (runes_eq s t)) [
  | inl e ↦ (λ f. ground arith, λ n. absurd (n (runes_eq-equal s t e)))
  | inr e ↦ (λ f p. differ (sym p) e, λ n. e)
]

-- `unicode.IsSpace`.
unfoldable pub is_space : ℕ → Bool
is_space c =
    (leb 9 c && leb c 13)
    || c == 32
    || c == 0x85
    || c == 0xa0
    || c == 0x1680
    || (leb 0x2000 c && leb c 0x200a)
    || c == 0x2028
    || c == 0x2029
    || c == 0x202f
    || c == 0x205f
    || c == 0x3000

unfoldable pub trim_left : Runes → Runes
trim_left [] = []
trim_left (c ∷ s) = if is_space c then trim_left s else c ∷ s

-- `strings.TrimSpace`.
unfoldable pub trim_space : Runes → Runes
unfolding trim_left
trim_space s = reverse (trim_left (reverse (trim_left s)))

-- `unicode.ToLower` where the result is ASCII: the capital letters, U+0130 and the Kelvin sign. No
-- other letter has an ASCII lower case, so a comparison with an ASCII text has the same answer.
unfoldable pub lower_rune : ℕ → ℕ
lower_rune c =
    if leb 65 c && leb c 90
    then c + 32
    else if c == 0x130
    then 105
    else if c == 0x212a
    then 107
    else c

unfoldable pub to_lower : Runes → Runes
unfolding lower_rune
to_lower = map lower_rune

-- `strings.HasPrefix`.
unfoldable pub has_prefix : Runes → Runes → Bool
has_prefix s [] = true
has_prefix [] (d ∷ p) = false
has_prefix (c ∷ s) (d ∷ p) = if c == d then has_prefix s p else false

-- `strings.Contains`.
unfoldable pub contains : Runes → Runes → Bool
unfolding has_prefix
contains [] p = has_prefix [] p
contains (c ∷ s) p = has_prefix (c ∷ s) p || contains s p

drop : Runes → Runes → Runes
drop p [] = []
drop [] s = s
drop (_ ∷ p) (c ∷ s) = drop p s

-- `strings.TrimPrefix`.
unfoldable pub trim_prefix : Runes → Runes → Runes
unfolding has_prefix drop
trim_prefix s p = if has_prefix s p then drop p s else s
