-- ===== src/Titles/Grouped.antt =====
-- internal/application/catalog.go, `groupCatalog`: each title stands for the sources of its id.
use mathlib.Core.List.{append_assoc, append-nil}
use filelist_streaming_servi.Retention.{is_before, compare_runes}
use filelist_streaming_servi.Base.{
  In-of_In-keep, In-keep, In-sort, In-of_In-sort, runes_eq_refl, runes_eq-equal, In-append_cases,
  ◌≡◌, ◌≢◌, ◌↔◌, inl, inr, refl, sym, ap, subst, ◌∙◌, Bool, List, [], ◌∷◌, ◌++◌, String, Runes, In,
  arith, length, keep, map, eq_iff, eq_refl, not, runes_eq,
}
use filelist_streaming_servi.Titles.{
  Listing, Digests, Group, CatalogTitle, catalog_title_id, add_source, group_from, group_catalog,
  sorted_keys, finish_title,
}
use filelist_streaming_servi.Titles.Sets.{Distinct}
use filelist_streaming_servi.Titles.Summary.{IsSummary, note-IsSummary}
use filelist_streaming_servi.Titles.Groups.{
  new_group-IsSummary, of_title, ids, note-id, new-id, add_cases, add_source-ids,
  Distinct-add_source, IsGrouping, of_title-append_last,
}

of_title-same :
    (env : Digests) (id : String) (seen : List Listing) (x : Listing)
    → catalog_title_id env x ≡ id
    → of_title env id (seen ++ (x ∷ [])) ≡ of_title env id seen ++ (x ∷ [])
of_title-same env id seen x e =
    of_title-append_last env id seen x
    ∙ ap (λ (l : List Listing). of_title env id seen ++ l) (ground (arith, eq_refl id))

of_title-other :
    (env : Digests) (id : String) (seen : List Listing) (x : Listing)
    → catalog_title_id env x ≢ id
    → of_title env id (seen ++ (x ∷ [])) ≡ of_title env id seen
of_title-other env id seen x n =
    of_title-append_last env id seen x
    ∙ ap (λ (l : List Listing). of_title env id seen ++ l)
        (ground (arith, eq_iff (catalog_title_id env x) id))
    ∙ append-nil (of_title env id seen)

of_title-none :
    (env : Digests) (id : String) (seen : List Listing)
    → ((y : Listing) → In y seen → catalog_title_id env y ≢ id)
    → of_title env id seen ≡ []
of_title-none env id [] n = refl
of_title-none env id (y ∷ seen) n = ground (
  arith,
  n y (inl refl),
  eq_iff (catalog_title_id env y) id,
  of_title-none env id seen (λ z m. n z (inr m)),
)

add_source-each :
    (env : Digests) (include : Bool) (seen : List Listing) (x : Listing) (groups : List Group)
    → IsGrouping env include seen groups
    → (g : Group) → In g (add_source include (catalog_title_id env x) x groups)
    → (first : Listing) × (rest : List Listing) × (of_title env g.id (seen ++ (x ∷ []))
        ≡ first ∷ rest)
      × IsSummary include first (first ∷ rest) g
add_source-each env include seen x groups s g m =
    let id = catalog_title_id env x in
    elim (add_cases include id x groups g s.distinct m) [
      | inl (old, i, k, e) ↦
          let (first, rest, o, sum) = s.each old i in
          let same : g.id ≡ old.id = ap (λ (g : Group). g.id) e ∙ note-id include x old in
          (
            first,
            rest ++ (x ∷ []),
            of_title-same env g.id seen x (sym (same ∙ k))
                ∙ ap (λ (k : String). of_title env k seen ++ (x ∷ [])) same
                ∙ ap (λ (l : List Listing). l ++ (x ∷ [])) o,
            subst (IsSummary include first (first ∷ (rest ++ (x ∷ [])))) (sym e)
                (note-IsSummary include first (first ∷ rest) x old sum),
          )
      | inr (inl (i, k)) ↦
          let (first, rest, o, sum) = s.each g i in
          (first, rest, of_title-other env g.id seen x (λ z. k (sym z)) ∙ o, sum)
      | inr (inr (new, e)) ↦
          let same : g.id ≡ id = ap (λ (g : Group). g.id) e ∙ new-id include id x in
          (
            x,
            [],
            of_title-same env g.id seen x (sym same)
                ∙ ap (λ (l : List Listing). l ++ (x ∷ []))
                    (of_title-none env g.id seen
                      (λ y m z. new (subst (λ k. In k (ids groups)) (z ∙ same) (s.all y m)))),
            subst (IsSummary include x (x ∷ [])) (sym e) (new_group-IsSummary include id x),
          )
    ]

group_from-IsGrouping :
    (env : Digests) (include : Bool) (items seen : List Listing) (groups : List Group)
    → IsGrouping env include seen groups
    → IsGrouping env include (seen ++ items) (group_from env include items groups)
unfolding group_from
group_from-IsGrouping env include [] seen groups s =
    subst (λ seen. IsGrouping env include seen groups) (sym (append-nil seen)) s
group_from-IsGrouping env include (x ∷ items) seen groups s =
    let id = catalog_title_id env x in
    subst
      (λ seen.
        IsGrouping env include seen (group_from env include items (add_source include id x groups)))
      (append_assoc seen (x ∷ []) items)
      (group_from-IsGrouping env include items (seen ++ (x ∷ [])) (add_source include id x groups)
        record {
          distinct = Distinct-add_source include id x groups s.distinct;
          each = add_source-each env include seen x groups s;
          all = λ y m.
              (add_source-ids include id x groups (catalog_title_id env y)).1
                (elim (In-append_cases y seen (x ∷ []) m) [
                  | inl i ↦ inr (s.all y i)
                  | inr (inl e) ↦ inl (ap (catalog_title_id env) e)
                  | inr (inr i) ↦ absurd i
                ]);
        })

-- What a title says of the sources of its id.
pub record IsTitle (env : Digests) (include : Bool) (items : List Listing) (t : CatalogTitle)
    : Type 0 where
  pub first : Listing
  pub rest : List Listing
  pub sources : of_title env t.group.id items ≡ first ∷ rest
  pub summary : IsSummary include first (first ∷ rest) t.group
  pub season_count : t.season_count ≡ length t.group.seasons
  pub in_categories :
      (c : Runes)
      → In c t.categories ↔ ((c ≢ []) × ((x : Listing) × In x (first ∷ rest) × (x.category ≡ c)))

in_sorted : (c : Runes) (set : List Runes) → In c (sorted_keys set) ↔ ((c ≢ []) × In c set)
unfolding sorted_keys
in_sorted c set =
    let less = λ (a b : Runes). is_before (compare_runes a b) in
    let kept = keep (λ a. not (runes_eq a [])) set in
    (
      λ m.
          let i = In-of_In-keep (λ a. not (runes_eq a [])) c set (In-of_In-sort less c kept m) in
          (λ e. absurd (ground (arith, runes_eq_refl [])), i.0),
      λ (n, m).
          In-sort less c kept
            (In-keep (λ a. not (runes_eq a [])) c set m (ground (arith, runes_eq-equal c []))),
    )

finish-IsTitle :
    (env : Digests) (include : Bool) (items : List Listing) (groups : List Group)
    → IsGrouping env include items groups
    → (g : Group) → In g groups
    → IsTitle env include items (finish_title g)
unfolding finish_title
finish-IsTitle env include items groups s g m =
    let (first, rest, o, sum) = s.each g m in
    record {
      first = first;
      rest = rest;
      sources = o;
      summary = sum;
      season_count = refl;
      in_categories = λ c.
          let i = in_sorted c g.categories in
          let j = sum.in_category c in
          (λ m. let (n, k) = i.0 m in (n, j.0 k), λ (n, k). i.1 (n, j.1 k));
    }

titles-ids :
    (groups : List Group)
    → map (λ (t : CatalogTitle). t.group.id) (map finish_title groups) ≡ ids groups
unfolding finish_title
titles-ids [] = refl
titles-ids (g ∷ groups) = ap (λ (l : List String). g.id ∷ l) (titles-ids groups)

finished :
    (t : CatalogTitle) (groups : List Group)
    → In t (map finish_title groups)
    → (g : Group) × In g groups × (t ≡ finish_title g)
finished t [] m = absurd m
finished t (g ∷ groups) (inl e) = (g, inl refl, e)
finished t (g ∷ groups) (inr m) = let (h, i, e) = finished t groups m in (h, inr i, e)

-- In the titles that the sources are grouped into, no id stands twice, every source has the title of its
-- id, and a title stands for exactly the sources of its id, of which there is one: it has the names, the
-- kind and the year of the first one, their number, and where they are asked for the sources in order; the
-- most seeders, the largest size and the latest upload of any; as its categories those of any that are not
-- empty, and as the number of its seasons that of the distinct seasons that any covers.
pub group_catalog-IsGrouped :
    (env : Digests) (include : Bool) (items : List Listing)
    → let titles = group_catalog env include items in
      Distinct (map (λ (t : CatalogTitle). t.group.id) titles)
      × ((x : Listing)
          → In x items
          → In (catalog_title_id env x) (map (λ (t : CatalogTitle). t.group.id) titles))
      × ((t : CatalogTitle) → In t titles → IsTitle env include items t)
unfolding group_catalog
group_catalog-IsGrouped env include items =
    let groups = group_from env include items [] in
    let s =
      group_from-IsGrouping env include items [] []
        record { distinct = tt; each = λ g m. absurd m; all = λ x m. absurd m } in
    (
      subst Distinct (sym (titles-ids groups)) s.distinct,
      λ x m. subst (In (catalog_title_id env x)) (sym (titles-ids groups)) (s.all x m),
      λ t m.
          let (g, i, e) = finished t groups m in
          subst (IsTitle env include items) (sym e) (finish-IsTitle env include items groups s g i),
    )
