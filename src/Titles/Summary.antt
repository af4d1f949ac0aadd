-- ===== src/Titles/Summary.antt =====
-- internal/application/catalog.go, `groupCatalog`: what a title says of its sources, one after the other.
use filelist_streaming_servi.Base.{
  ℕ, ◌≤◌, ◌≡◌, ◌⊎◌, ◌↔◌, inl, inr, refl, Bool, Option, none, some, List, [], ◌∷◌, ◌++◌, Runes, In,
  arith, Bool-cases, length, if◌then◌else◌, runes_eq, length-append, In-append_left,
  In-append_right, In-append_cases, subst, ltb, sym, ◌∙◌,
}
use filelist_streaming_servi.Titles.{
  Listing, Group, note_source, larger, later, put_seasons, put_in,
}
use filelist_streaming_servi.Titles.Sets.{
  Distinct, Covers, In-put_runes, In-put_seasons, Distinct-put_seasons,
}

-- What a group says of the sources that it has seen, in order.
pub record IsSummary (include : Bool) (first : Listing) (seen : List Listing) (g : Group)
    : Type 0 where
  pub named : (g.title ≡ first.title) × (g.kind ≡ first.kind) × (g.year ≡ first.year)
  pub counted : g.source_count ≡ length seen
  pub listed : g.sources ≡ (if include then seen else [])
  pub best : (x : Listing) → In x seen → x.seeders ≤ g.best_seeders
  pub best_met : (g.best_seeders ≡ 0) ⊎ ((x : Listing) × In x seen × (x.seeders ≡ g.best_seeders))
  pub largest : (x : Listing) → In x seen → x.size_bytes ≤ g.largest_size_bytes
  pub largest_met :
      (g.largest_size_bytes ≡ 0)
      ⊎ ((x : Listing) × In x seen × (x.size_bytes ≡ g.largest_size_bytes))
  pub newest :
      (x : Listing) (at : ℕ)
      → In x seen
      → x.uploaded_at ≡ some at
      → (last : ℕ) × (g.newest_upload ≡ some last) × (at ≤ last)
  pub newest_met :
      (g.newest_upload ≡ none) ⊎ ((x : Listing) × In x seen × (x.uploaded_at ≡ g.newest_upload))
  pub in_category : (c : Runes) → In c g.categories ↔ ((x : Listing) × In x seen × (x.category ≡ c))
  pub in_season : (n : ℕ) → In n g.seasons ↔ ((x : Listing) × In x seen × Covers n x)
  pub seasons_once : Distinct g.seasons

-- Some source of the list has the property.
abbrev pub Some : (Listing → Type 0) → List Listing → Type 0
Some P seen = (x : Listing) × In x seen × P x

Some-left :
    (P : Listing → Type 0) (seen : List Listing) (x : Listing)
    → Some P seen
    → Some P (seen ++ (x ∷ []))
Some-left P seen x (y, m, p) = (y, In-append_left y seen (x ∷ []) m, p)

Some-last :
    (P : Listing → Type 0) (seen : List Listing) (x : Listing) → P x → Some P (seen ++ (x ∷ []))
Some-last P seen x p = (x, In-append_right x seen (x ∷ []) (inl refl), p)

Some-cases :
    (P : Listing → Type 0) (seen : List Listing) (x : Listing)
    → Some P (seen ++ (x ∷ []))
    → P x ⊎ Some P seen
Some-cases P seen x (y, m, p) = elim (In-append_cases y seen (x ∷ []) m) [
  | inl i ↦ inr (y, i, p)
  | inr (inl e) ↦ inl (subst P e p)
  | inr (inr i) ↦ absurd i
]

-- A set that takes in what the new source has.
grows :
    (P : Listing → Type 0) (seen : List Listing) (x : Listing) (A B : Type 0)
    → (A ↔ (P x ⊎ B))
    → (B ↔ Some P seen)
    → (A ↔ Some P (seen ++ (x ∷ [])))
grows P seen x A B put old = (
  λ a. elim (put.0 a) [ inl p ↦ Some-last P seen x p | inr b ↦ Some-left P seen x (old.0 b) ],
  λ h. put.1 (elim (Some-cases P seen x h) [ inl p ↦ inl p | inr h ↦ inr (old.1 h) ]),
)

larger_met :
    (size : Listing → ℕ) (seen : List Listing) (x : Listing) (most : ℕ)
    → (most ≡ 0) ⊎ Some (λ y. size y ≡ most) seen
    → (larger (size x) most ≡ 0) ⊎ Some (λ y. size y ≡ larger (size x) most) (seen ++ (x ∷ []))
unfolding larger
larger_met size seen x most h = elim (Bool-cases (ltb most (size x))) [
  | inl e ↦ inr (Some-last (λ y. size y ≡ larger (size x) most) seen x (rw (larger, e) refl))
  | inr e ↦
      rw (larger, e)
        (elim h [ inl z ↦ inl z | inr m ↦ inr (Some-left (λ y. size y ≡ most) seen x m) ])
]

later_one : (new newest : Option ℕ) → (later new newest ≡ new) ⊎ (later new newest ≡ newest)
unfolding later
later_one none newest = inr refl
later_one (some at) none = inl refl
later_one (some at) (some newest) = ground arith

later_met :
    (seen : List Listing) (x : Listing) (newest : Option ℕ)
    → (newest ≡ none) ⊎ Some (λ y. y.uploaded_at ≡ newest) seen
    → (later x.uploaded_at newest ≡ none)
      ⊎ Some (λ y. y.uploaded_at ≡ later x.uploaded_at newest) (seen ++ (x ∷ []))
later_met seen x newest h = elim (later_one x.uploaded_at newest) [
  | inl e ↦ inr (Some-last (λ y. y.uploaded_at ≡ later x.uploaded_at newest) seen x (sym e))
  | inr e ↦ elim h [
    | inl z ↦ inl (e ∙ z)
    | inr m ↦
        inr (
          Some-left (λ y. y.uploaded_at ≡ later x.uploaded_at newest) seen x
            (m.0, m.1, m.2 ∙ sym e))
  ]
]

later_bound :
    (at : ℕ) (new newest : Option ℕ)
    → (new ≡ some at) ⊎ ((last : ℕ) × (newest ≡ some last) × (at ≤ last))
    → (last : ℕ) × (later new newest ≡ some last) × (at ≤ last)
unfolding later
later_bound at none newest h = elim h [ inl e ↦ absurd (ground arith) | inr k ↦ k ]
later_bound at (some new) none h = (new, refl, ground arith)
later_bound at (some new) (some newest) h = elim (Bool-cases (ltb newest new)) [
  | inl e ↦ (new, ground arith, ground arith)
  | inr e ↦ (newest, ground arith, ground arith)
]

flipped : {A B : Type 0} (c d : Runes) → (A ↔ ((c ≡ d) ⊎ B)) → (A ↔ ((d ≡ c) ⊎ B))
flipped c d h = (
  λ a. elim (h.0 a) [ inl e ↦ inl (sym e) | inr b ↦ inr b ],
  λ k. h.1 (elim k [ inl e ↦ inl (sym e) | inr b ↦ inr b ]),
)

pub note-IsSummary :
    (include : Bool) (first : Listing) (seen : List Listing) (x : Listing) (g : Group)
    → IsSummary include first seen g
    → IsSummary include first (seen ++ (x ∷ [])) (note_source include x g)
unfolding note_source larger later
note-IsSummary include first seen x g s = record {
  named = s.named;
  counted = ground (arith, s.counted, length-append seen (x ∷ []));
  listed = ground (arith, s.listed);
  best = λ y m. ground (arith, In-append_cases y seen (x ∷ []) m, s.best y);
  best_met = larger_met (λ y. y.seeders) seen x g.best_seeders s.best_met;
  largest = λ y m. ground (arith, In-append_cases y seen (x ∷ []) m, s.largest y);
  largest_met = larger_met (λ y. y.size_bytes) seen x g.largest_size_bytes s.largest_met;
  newest = λ y at m e.
      later_bound at x.uploaded_at g.newest_upload
        (elim (Some-cases (λ z. z.uploaded_at ≡ some at) seen x (y, m, e)) [
          | inl new ↦ inl new
          | inr (z, i, old) ↦ inr (s.newest z at i old)
        ]);
  newest_met = later_met seen x g.newest_upload s.newest_met;
  in_category = λ c.
      grows (λ y. y.category ≡ c) seen x (In c (put_in runes_eq x.category g.categories))
        (In c g.categories) (flipped c x.category (In-put_runes x.category c g.categories))
        (s.in_category c);
  in_season = λ n.
      grows (Covers n) seen x (In n (put_seasons x g.seasons)) (In n g.seasons)
        (In-put_seasons n x g.seasons) (s.in_season n);
  seasons_once = Distinct-put_seasons x g.seasons s.seasons_once;
}
