-- ===== src/Catalog/Selection.antt =====
-- internal/application/catalog.go: which download `sourceState` selects.
use mathlib.Core.Option.{some-injective, none-ne-some}
use filelist_streaming_servi.Base.{
  Bool-cases, In, List, Option, [], arith, false, inl, inr, none, refl, some, subst, sym, true, ◌∙◌,
  ◌∷◌, ◌≡◌, ◌⊎◌,
}
use filelist_streaming_servi.Catalog.{CatalogSource}
use filelist_streaming_servi.Catalog.Playback.{select_download, consider, is_better, is_eligible}
use filelist_streaming_servi.Domain.{Download}

-- The download that `select_download` chooses is one of the eligible ones, and none of them is better.
pub record IsBest (source : CatalogSource) (downloads : List Download) (chosen : Download)
    : Type 0 where
  pub held : In chosen downloads
  pub eligible : is_eligible source chosen ≡ true
  pub unbeaten :
      (d : Download) → In d downloads → is_eligible source d ≡ true → is_better d chosen ≡ false

consider-cases :
    (source : CatalogSource) (d : Download) (selected : Option Download)
    → (consider source d selected ≡ selected)
      ⊎ ((consider source d selected ≡ some d) × (is_eligible source d ≡ true))
unfolding consider
consider-cases source d none = elim (Bool-cases (is_eligible source d)) [
  | inl e ↦ inr (rw e refl, e)
  | inr e ↦ inl (rw e refl)
]
consider-cases source d (some s) = elim (Bool-cases (is_eligible source d)) [
  | inl e ↦ elim (Bool-cases (is_better d s)) [
    | inl b ↦ inr (rw (e, b) refl, e)
    | inr b ↦ inl (rw (e, b) refl)
  ]
  | inr e ↦ inl (rw e refl)
]

select_download-held :
    (source : CatalogSource) (downloads : List Download) (selected : Option Download)
    (chosen : Download)
    → select_download source downloads selected ≡ some chosen
    → (selected ≡ some chosen) ⊎ (In chosen downloads × (is_eligible source chosen ≡ true))
unfolding select_download
select_download-held source [] selected chosen e = inl e
select_download-held source (d ∷ downloads) selected chosen e =
    elim (select_download-held source downloads (consider source d selected) chosen e) [
      | inr (m, g) ↦ inr (inr m, g)
      | inl c ↦ elim (consider-cases source d selected) [
        | inl k ↦ inl (sym k ∙ c)
        | inr (k, g) ↦ inr (
          inl (some-injective _ _ (sym c ∙ k)),
          subst (λ x. is_eligible source x ≡ true) (some-injective _ _ (sym k ∙ c)) g,
        )
      ]
    ]

-- No eligible download beats the one selected so far, and none is eligible while none is selected.
abbrev Covers : CatalogSource → Download → Option Download → Type 0
Covers source d none = is_eligible source d ≡ false
Covers source d (some s) = is_eligible source d ≡ true → is_better d s ≡ false

is_better_irrefl : (d : Download) → is_better d d ≡ false
unfolding is_better
is_better_irrefl d = ground arith

is_better-neg_trans :
    (d s t : Download) → is_better d s ≡ false → is_better t s ≡ true → is_better d t ≡ false
unfolding is_better
is_better-neg_trans d s t e b = ground arith

Covers-consider :
    (source : CatalogSource) (d e : Download) (selected : Option Download)
    → Covers source d selected
    → Covers source d (consider source e selected)
unfolding consider
Covers-consider source d e none c = elim (Bool-cases (is_eligible source e)) [
  | inl g ↦ rw g (λ h. ground arith)
  | inr g ↦ rw g c
]
Covers-consider source d e (some s) c = ground (arith, is_better-neg_trans d s e)

Covers-consider_same :
    (source : CatalogSource) (d : Download) (selected : Option Download)
    → Covers source d (consider source d selected)
unfolding consider
Covers-consider_same source d none = ground (arith, is_better_irrefl d)
Covers-consider_same source d (some s) = ground (arith, is_better_irrefl d)

select_download-Covers :
    (source : CatalogSource) (d : Download) (downloads : List Download) (selected : Option Download)
    → Covers source d selected
    → Covers source d (select_download source downloads selected)
unfolding select_download
select_download-Covers source d [] selected c = c
select_download-Covers source d (e ∷ downloads) selected c =
    select_download-Covers source d downloads (consider source e selected)
      (Covers-consider source d e selected c)

select_download-Covers_all :
    (source : CatalogSource) (d : Download) (downloads : List Download) (selected : Option Download)
    → In d downloads
    → Covers source d (select_download source downloads selected)
unfolding select_download
select_download-Covers_all source d [] selected m = absurd m
select_download-Covers_all source d (e ∷ downloads) selected (inl same) = rw same (
    select_download-Covers source e downloads (consider source e selected)
      (Covers-consider_same source e selected))
select_download-Covers_all source d (e ∷ downloads) selected (inr m) =
    select_download-Covers_all source d downloads (consider source e selected) m

-- The download that `sourceState` selects among those of the release is eligible for the source, and no
-- eligible one has more progress, or the same and a later creation.
pub select_download-IsBest :
    (source : CatalogSource) (downloads : List Download) (chosen : Download)
    → select_download source downloads none ≡ some chosen
    → IsBest source downloads chosen
select_download-IsBest source downloads chosen e =
    let h : In chosen downloads × (is_eligible source chosen ≡ true) =
      elim (select_download-held source downloads none chosen e) [
        | inl k ↦ absurd (none-ne-some _ k)
        | inr h ↦ h
      ] in
    record {
      held = h.0;
      eligible = h.1;
      unbeaten =
          λ d m. subst (Covers source d) e (select_download-Covers_all source d downloads none m);
    }

-- `sourceState` selects no download only if none of the release is eligible for the source.
select_download_nothing :
    (source : CatalogSource) (downloads : List Download)
    → select_download source downloads none ≡ none
    → (d : Download) → In d downloads
    → is_eligible source d ≡ false
select_download_nothing source downloads e d m =
    subst (Covers source d) e (select_download-Covers_all source d downloads none m)
