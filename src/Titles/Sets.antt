-- ===== src/Titles/Sets.antt =====
-- internal/application/catalog.go, `groupCatalog`: the sets of a title.
use filelist_streaming_servi.Base.{
  ◌+◌, ◌-◌, ℕ, zero, suc, ◌<◌, ◌≤◌, ◌≡◌, ◌⊎◌, ◌↔◌, inl, inr, Bool, true, List, [], ◌∷◌, In, arith,
  Bool-cases, ◌==◌, Runes, runes_eq, runes_eq-equal,
}
use filelist_streaming_servi.Titles.{put_in, put_range, larger, put_seasons, Listing}

-- No item stands twice in the list.
abbrev pub Distinct : {A : Type 0} → List A → Type 0
Distinct [] = Unit
Distinct (a ∷ set) = (In a set → ⊥) × Distinct set

module _ {A : Type 0} (eq : A → A → Bool) (eq-equal : (a b : A) → eq a b ≡ true → a ≡ b) where
  pub In-put_in : (a b : A) (set : List A) → In b (put_in eq a set) ↔ ((b ≡ a) ⊎ In b set)
  unfolding put_in
  In-put_in a b [] = (λ m. ground arith, λ m. ground arith)
  In-put_in a b (c ∷ set) = (
    λ m. ground (arith, In-put_in a b set, eq-equal c a),
    λ m. ground (arith, In-put_in a b set, eq-equal c a),
  )

  pub Distinct-put_in :
      (eq_refl : (a : A) → eq a a ≡ true) (a : A) (set : List A)
      → Distinct set
      → Distinct (put_in eq a set)
  unfolding put_in
  Distinct-put_in eq_refl a [] d = (λ m. m, tt)
  Distinct-put_in eq_refl a (c ∷ set) d = elim (Bool-cases (eq c a)) [
    | inl e ↦ rw (put_in, e) d
    | inr e ↦
        rw (put_in, e)
          (λ m. ground (arith, In-put_in a c set, eq_refl c), Distinct-put_in eq_refl a set d.1)
  ]

native-equal : (a b : ℕ) → a == b ≡ true → a ≡ b
native-equal a b e = ground arith

native_refl : (a : ℕ) → a == a ≡ true
native_refl a = ground arith

In-put_range :
    (b start count : ℕ) (set : List ℕ)
    → In b (put_range start count set) ↔ (((start ≤ b) × (b < start + count)) ⊎ In b set)
unfolding put_range
In-put_range b start zero set =
    (λ m. inr m, λ m. elim m [ inl r ↦ absurd (omega arith) | inr i ↦ i ])
In-put_range b start (suc count) set =
    let i = In-put_range b (suc start) count (put_in ◌==◌ start set) in
    let j = In-put_in ◌==◌ native-equal start b set in
    (λ m. ground (arith, i, j), λ m. ground (arith, i, j))

Distinct-put_range :
    (start count : ℕ) (set : List ℕ) → Distinct set → Distinct (put_range start count set)
unfolding put_range
Distinct-put_range start zero set d = d
Distinct-put_range start (suc count) set d =
    Distinct-put_range (suc start) count (put_in ◌==◌ start set)
      (Distinct-put_in ◌==◌ native-equal native_refl start set d)

-- The seasons that a source covers.
abbrev pub Covers : ℕ → Listing → Type 0
Covers n x =
    (0 < x.season_start) × (x.season_start ≤ n) × ((n ≤ x.season_start) ⊎ (n ≤ x.season_end))

pub In-put_seasons :
    (n : ℕ) (x : Listing) (set : List ℕ) → In n (put_seasons x set) ↔ (Covers n x ⊎ In n set)
unfolding put_seasons larger
In-put_seasons n x set =
    let i =
      In-put_range n x.season_start (suc (larger x.season_end x.season_start) - x.season_start)
        set in
    (λ m. ground (arith, i), λ m. ground (arith, i))

pub Distinct-put_seasons :
    (x : Listing) (set : List ℕ) → Distinct set → Distinct (put_seasons x set)
unfolding put_seasons
Distinct-put_seasons x set d = ground (
  arith,
  Distinct-put_range x.season_start (suc (larger x.season_end x.season_start) - x.season_start) set
      d,
)

pub In-put_runes :
    (a b : Runes) (set : List Runes) → In b (put_in runes_eq a set) ↔ ((b ≡ a) ⊎ In b set)
In-put_runes = In-put_in runes_eq runes_eq-equal
