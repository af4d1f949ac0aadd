-- ===== src/Titles/Groups.antt =====
-- internal/application/catalog.go, `groupCatalog`: the groups after one more source.
use filelist_streaming_servi.Base.{
  ◌≡◌, ◌≢◌, ◌⊎◌, ◌↔◌, inl, inr, refl, ap, subst, Bool, true, false, List, [], ◌∷◌, ◌++◌, String, In,
  arith, Bool-cases, keep, map, str_eq, eq_iff,
}
use filelist_streaming_servi.Titles.{
  Listing, Digests, Group, catalog_title_id, new_group, note_source, add_source,
}
use filelist_streaming_servi.Titles.Sets.{Distinct}
use filelist_streaming_servi.Titles.Summary.{IsSummary, note-IsSummary}

pub new_group-IsSummary :
    (include : Bool) (id : String) (x : Listing)
    → IsSummary include x (x ∷ []) (note_source include x (new_group id x))
unfolding new_group
new_group-IsSummary include id x = note-IsSummary include x [] x (new_group id x) record {
  named = (refl, refl, refl);
  counted = refl;
  listed = ground arith;
  best = λ y m. absurd m;
  best_met = inl refl;
  largest = λ y m. absurd m;
  largest_met = inl refl;
  newest = λ y at m e. absurd m;
  newest_met = inl refl;
  in_category = λ c. (λ m. absurd m, λ (y, m, p). absurd m);
  in_season = λ n. (λ m. absurd m, λ (y, m, p). absurd m);
  seasons_once = tt;
}

-- The sources of a title, in their order.
abbrev pub of_title : Digests → String → List Listing → List Listing
of_title env id = keep λ x. str_eq (catalog_title_id env x) id

abbrev pub ids : List Group → List String
ids groups = map (λ (g : Group). g.id) groups

pub note-id : (include : Bool) (x : Listing) (g : Group) → (note_source include x g).id ≡ g.id
unfolding note_source
note-id include x g = refl

pub new-id :
    (include : Bool) (id : String) (x : Listing) → (note_source include x (new_group id x)).id ≡ id
unfolding note_source new_group
new-id include id x = refl

pub In-ids : (g : Group) (groups : List Group) → In g groups → In g.id (ids groups)
In-ids g [] m = m
In-ids g (h ∷ groups) (inl e) = inl (ap (λ (g : Group). g.id) e)
In-ids g (h ∷ groups) (inr m) = inr (In-ids g groups m)

pub add-same :
    (include : Bool) (id : String) (x : Listing) (h : Group) (groups : List Group)
    → str_eq h.id id ≡ true
    → add_source include id x (h ∷ groups) ≡ note_source include x h ∷ groups
unfolding add_source
add-same include id x h groups same = rw (add_source, same) refl

pub add-other :
    (include : Bool) (id : String) (x : Listing) (h : Group) (groups : List Group)
    → str_eq h.id id ≡ false
    → add_source include id x (h ∷ groups) ≡ h ∷ add_source include id x groups
unfolding add_source
add-other include id x h groups other = rw (add_source, other) refl

-- Where a group after the addition comes from.
pub add_cases :
    (include : Bool) (id : String) (x : Listing) (groups : List Group) (g : Group)
    → Distinct (ids groups)
    → In g (add_source include id x groups)
    → ((old : Group) × In old groups × (old.id ≡ id) × (g ≡ note_source include x old))
      ⊎ ((In g groups × (g.id ≢ id))
          ⊎ ((In id (ids groups) → ⊥) × (g ≡ note_source include x (new_group id x))))
unfolding add_source
add_cases include id x [] g d (inl e) = inr (inr (λ m. m, e))
add_cases include id x [] g d (inr m) = absurd m
add_cases include id x (h ∷ groups) g d m = elim (Bool-cases (str_eq h.id id)) [
  | inl same ↦
      let m' : In g (note_source include x h ∷ groups) =
        subst (In g) (add-same include id x h groups same) m in
      elim m' [
        | inl e ↦ inl (h, inl refl, ground (arith, eq_iff h.id id), e)
        | inr i ↦ inr (
            inl (
              inr i,
              λ e. d.0 (
                  subst (λ k. In k (ids groups)) (ground (arith, eq_iff h.id id))
                    (In-ids g groups i)),
            ))
      ]
  | inr other ↦
      let m' : In g (h ∷ add_source include id x groups) =
        subst (In g) (add-other include id x h groups other) m in
      elim m' [
        | inl e ↦ inr (inl (inl e, λ k. ground (arith, eq_iff h.id id)))
        | inr i ↦ elim (add_cases include id x groups g d.1 i) [
          | inl (old, j, k, e) ↦ inl (old, inr j, k, e)
          | inr (inl (j, k)) ↦ inr (inl (inr j, k))
          | inr (inr (k, e)) ↦ inr (
              inr
                (λ j. elim j [ inl z ↦ absurd (ground (arith, eq_iff h.id id)) | inr j ↦ k j ], e))
        ]
      ]
]

pub add_source-ids :
    (include : Bool) (id : String) (x : Listing) (groups : List Group) (k : String)
    → In k (ids (add_source include id x groups)) ↔ ((k ≡ id) ⊎ In k (ids groups))
unfolding add_source
add_source-ids include id x [] k =
    (λ m. ground (arith, new-id include id x), λ m. ground (arith, new-id include id x))
add_source-ids include id x (h ∷ groups) k = (
  λ m. ground (arith, note-id include x h, add_source-ids include id x groups k, eq_iff h.id id),
  λ m. ground (arith, note-id include x h, add_source-ids include id x groups k, eq_iff h.id id),
)

pub Distinct-add_source :
    (include : Bool) (id : String) (x : Listing) (groups : List Group)
    → Distinct (ids groups)
    → Distinct (ids (add_source include id x groups))
unfolding add_source
Distinct-add_source include id x [] d = (λ m. m, tt)
Distinct-add_source include id x (h ∷ groups) d = elim (Bool-cases (str_eq h.id id)) [
  | inl same ↦ rw (add_source, same) (rw (note-id include x h) d)
  | inr other ↦
      rw (add_source, other)
        (
          λ m. ground (arith, add_source-ids include id x groups h.id, eq_iff h.id id),
          Distinct-add_source include id x groups d.1,
        )
]

-- The groups after the sources `seen`.
pub record IsGrouping (env : Digests) (include : Bool) (seen : List Listing) (groups : List Group)
    : Type 0 where
  pub distinct : Distinct (ids groups)
  pub each :
      (g : Group)
      → In g groups
      → (first : Listing) × (rest : List Listing) × (of_title env g.id seen ≡ first ∷ rest)
        × IsSummary include first (first ∷ rest) g
  pub all : (x : Listing) → In x seen → In (catalog_title_id env x) (ids groups)

pub of_title-append_last :
    (env : Digests) (id : String) (seen : List Listing) (x : Listing)
    → of_title env id (seen ++ (x ∷ [])) ≡ of_title env id seen ++ of_title env id (x ∷ [])
of_title-append_last env id [] x = refl
of_title-append_last env id (y ∷ seen) x = ground (arith, of_title-append_last env id seen x)
