-- ===== src/Survey/Grouping.antt =====
-- internal/application/retention.go, `retentionSurvey`: the grouping of the managed rows by engine id, and
-- what a survey says of each of its routes.
use mathlib.Core.List.{append_assoc, append-nil}
use filelist_streaming_servi.Base.{
  ◌<◌, ◌≡◌, refl, sym, ap, subst, ◌∙◌, inl, inr, false, Option, none, some, List, [], ◌∷◌, ◌++◌,
  String, ok, str_eq, eq_iff, lookup, arith, In, keep, length, length-append, Option-cases,
  Bool-cases, Result-cases,
}
use filelist_streaming_servi.Domain.{Download}
use filelist_streaming_servi.Retention.{Route}
use filelist_streaming_servi.World.{World, Env, route}
use filelist_streaming_servi.Survey.{
  Plan, Household, add_row, group_rows, survey_routes, retention_survey, hash_of, total_bytes,
  retention_household,
}

abbrev Groups : Type 0
Groups = List (String × List Download)

-- The rows of a list that are pinned to an engine id.
abbrev pub rows_of : String → List Download → List Download
rows_of k = keep λ row. str_eq row.engine_id k

abbrev or_empty : Option (List Download) → List Download
or_empty none = []
or_empty (some rows) = rows

abbrev rows_at : String → Groups → List Download
rows_at k groups = or_empty (lookup k groups)

rows_at-add_row :
    (k : String) (row : Download) (groups : Groups)
    → rows_at k (add_row row groups) ≡ rows_at k groups ++ rows_of k (row ∷ [])
unfolding add_row lookup
rows_at-add_row k row [] = ground arith
rows_at-add_row k row ((j, rows) ∷ groups) = elim (Bool-cases (str_eq j row.engine_id)) [
  | inl same ↦ rw same (
      ground (
        arith,
        eq_iff j row.engine_id,
        eq_iff j k,
        eq_iff row.engine_id k,
        append-nil rows,
        append-nil (rows_at k groups),
      ))
  | inr other ↦ rw other (
      ground (
        arith,
        rows_at-add_row k row groups,
        eq_iff j row.engine_id,
        eq_iff j k,
        eq_iff row.engine_id k,
        append-nil rows,
      ))
]

rows_of-cons :
    (k : String) (row : Download) (rows : List Download)
    → rows_of k (row ∷ []) ++ rows_of k rows ≡ rows_of k (row ∷ rows)
rows_of-cons k row rows = ground arith

rows_at-group_rows :
    (env : Env) (k : String) (rows : List Download) (groups : Groups) {hash : String}
    → route env k ≡ some hash
    → rows_at k (group_rows env rows groups) ≡ rows_at k groups ++ rows_of k rows
unfolding group_rows
rows_at-group_rows env k [] groups h = sym (append-nil _)
rows_at-group_rows env k (row ∷ rows) groups h = elim (Option-cases (route env row.engine_id)) [
  | inl e ↦
      rw (e, group_rows)
        (ground (arith, rows_at-group_rows env k rows groups h, eq_iff row.engine_id k))
  | inr (hash, e) ↦
      rw (e, group_rows)
        (rows_at-group_rows env k rows (add_row row groups) h
          ∙ ap (λ t. t ++ rows_of k rows) (rows_at-add_row k row groups)
          ∙ append_assoc (rows_at k groups) (rows_of k (row ∷ [])) (rows_of k rows)
          ∙ ap (λ t. rows_at k groups ++ t) (rows_of-cons k row rows))
]

-- Every group has a row and a key of the active engine, and no two groups have one key.
abbrev Grouped : Env → Groups → Type 0
Grouped env [] = Unit
Grouped env ((k, rows) ∷ groups) =
    (0 < length rows)
    × ((hash : String) × (route env k ≡ some hash))
    × (lookup k groups ≡ none)
    × Grouped env groups

lookup-add_row-none :
    (k : String) (row : Download) (groups : Groups)
    → lookup k groups ≡ none
    → str_eq row.engine_id k ≡ false
    → lookup k (add_row row groups) ≡ none
unfolding add_row lookup
lookup-add_row-none k row [] h e = ground arith
lookup-add_row-none k row ((j, rows) ∷ groups) h e =
    ground (arith, lookup-add_row-none k row groups, eq_iff j row.engine_id, eq_iff j k)

Grouped-add_row :
    (env : Env) (row : Download) (groups : Groups) {hash : String}
    → route env row.engine_id ≡ some hash
    → Grouped env groups
    → Grouped env (add_row row groups)
unfolding add_row lookup
Grouped-add_row env row [] {hash} e g = (omega arith, (hash, e), refl, tt)
Grouped-add_row env row ((j, rows) ∷ groups) e g = elim (Bool-cases (str_eq j row.engine_id)) [
  | inl same ↦ rw same (omega (arith, length-append rows (row ∷ [])), g.1, g.2, g.3)
  | inr other ↦ rw other (
    g.0,
    g.1,
    lookup-add_row-none j row groups g.2
        (ground (arith, eq_iff j row.engine_id, eq_iff row.engine_id j)),
    Grouped-add_row env row groups e g.3,
  )
]

Grouped-group_rows :
    (env : Env) (rows : List Download) (groups : Groups)
    → Grouped env groups
    → Grouped env (group_rows env rows groups)
unfolding group_rows
Grouped-group_rows env [] groups g = g
Grouped-group_rows env (row ∷ rows) groups g = elim (Option-cases (route env row.engine_id)) [
  | inl e ↦ rw (e, group_rows) (Grouped-group_rows env rows groups g)
  | inr (hash, e) ↦
      rw (e, group_rows)
        (Grouped-group_rows env rows (add_row row groups) (Grouped-add_row env row groups e g))
]

lookup-In :
    (env : Env) (k : String) (rows : List Download) (groups : Groups)
    → Grouped env groups
    → In (k, rows) groups
    → lookup k groups ≡ some rows
unfolding lookup
lookup-In env k rows [] g m = absurd m
lookup-In env k rows ((j, js) ∷ groups) g (inl e) = ground (arith, eq_iff j k)
lookup-In env k rows ((j, js) ∷ groups) g (inr m) =
    ground (arith, eq_iff j k, lookup-In env k rows groups g.3 m)

-- What a survey knows of a route: its rows are all the rows pinned to its engine id, at least one, and
-- its status is what the engine answers for its hash.
pub record IsSurveyed (env : Env) (w : World) (r : Route) : Type 0 where
  pub rows_complete : r.rows ≡ rows_of r.engine_id w.downloads
  pub rows_some : 0 < length r.rows
  pub routed : route env r.engine_id ≡ some r.hash
  pub described : env.status w r.hash ≡ ok r.status

Grouped-In :
    (env : Env) (k : String) (rows : List Download) (groups : Groups)
    → Grouped env groups
    → In (k, rows) groups
    → (0 < length rows) × ((hash : String) × (route env k ≡ some hash))
Grouped-In env k rows [] g m = absurd m
Grouped-In env k rows ((j, js) ∷ groups) g (inl e) =
    subst (λ t. (0 < length t.1) × ((hash : String) × (route env t.0 ≡ some hash))) (sym e)
      (g.0, g.1)
Grouped-In env k rows ((j, js) ∷ groups) g (inr m) = Grouped-In env k rows groups g.3 m

survey_routes-In :
    (env : Env) (w : World) (h : Household) (r : Route) (groups : Groups)
    → In r (survey_routes env w h groups)
    → In (r.engine_id, r.rows) groups
      × (r.hash ≡ hash_of (route env r.engine_id))
      × (env.status w r.hash ≡ ok r.status)
unfolding survey_routes
survey_routes-In env w h r [] m = absurd m
survey_routes-In env w h r ((k, rows) ∷ groups) m =
    ground (arith, survey_routes-In env w h r groups)

group-rows_of :
    (env : Env) (k : String) (rows managed : List Download)
    → In (k, rows) (group_rows env managed [])
    → (rows ≡ rows_of k managed) × (0 < length rows) × ((hash : String) × (route env k ≡ some hash))
unfolding lookup
group-rows_of env k rows managed m =
    let g = Grouped-group_rows env managed [] tt in
    let (some_rows, (hash, e)) = Grouped-In env k rows (group_rows env managed []) g m in
    (
      sym (ap or_empty (lookup-In env k rows (group_rows env managed []) g m))
          ∙ rows_at-group_rows env k managed [] e,
      some_rows,
      (hash, e),
    )

routes_of_survey :
    (env : Env) (w : World) (plan : Plan)
    → retention_survey env w ≡ ok plan
    → (h : Household) × (plan.routes ≡ survey_routes env w h (group_rows env w.downloads []))
unfolding retention_survey
routes_of_survey env w plan h = elim (Result-cases (retention_household env w.downloads w)) [
  | inl (hh, e) ↦ (hh, ground arith)
  | inr (e, r) ↦ absurd (ground arith)
]

-- Each route of a survey has exactly the rows pinned to its engine id, at least one, and the status that
-- the engine answers for its hash.
pub retention_survey-IsSurveyed :
    (env : Env) (w : World) (plan : Plan) (r : Route)
    → retention_survey env w ≡ ok plan
    → In r plan.routes
    → IsSurveyed env w r
retention_survey-IsSurveyed env w plan r h m =
    let (hh, e) = routes_of_survey env w plan h in
    let (grouped, hash, described) = survey_routes-In env w hh r _ (subst (In r) e m) in
    let (complete, some_rows, (hash', routed)) =
      group-rows_of env r.engine_id r.rows w.downloads grouped in
    record {
      rows_complete = complete;
      rows_some = some_rows;
      routed = ground arith;
      described = described;
    }

-- Its total is the engine's total over the routes.
pub stored_bytes-survey :
    (env : Env) (w : World) (plan : Plan)
    → retention_survey env w ≡ ok plan
    → plan.stored_bytes ≡ total_bytes plan.routes
unfolding retention_survey
stored_bytes-survey env w plan h = ground arith
