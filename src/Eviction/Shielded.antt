-- ===== src/Eviction/Shielded.antt =====
-- internal/application/retention.go: what the toggles that look at a row itself mean for the eviction loop.
use filelist_streaming_servi.Base.{
  ℕ, zero, suc, ◌+◌, ◌≡◌, refl, sym, subst, ◌⊎◌, inl, inr, Bool, true, false, List, [], ◌∷◌, String,
  Runes, ok, str_eq, eq_iff, arith, In, All-of_In, any, length, ltb, In-keep, Option-cases,
  Bool-cases, Result-cases,
}
use filelist_streaming_servi.Domain.{Download, whole}
use filelist_streaming_servi.Settings.{Settings, normalize_eviction_rules}
use filelist_streaming_servi.Retention.{Route, retention_protected}
use filelist_streaming_servi.World.{World, Env}
use filelist_streaming_servi.Survey.{Plan, Reason, retention_survey, retention_deficit}
use filelist_streaming_servi.Survey.Grouping.{retention_survey-IsSurveyed}
use filelist_streaming_servi.Eviction.{
  evict_next, with_incoming, evict_until_fits, run_evictions, remove_torrent,
}
use filelist_streaming_servi.Eviction.Victim.{evict_next_rows}
use filelist_streaming_servi.Eviction.Removal.{In-remove_torrent, In-of_In-remove_torrent}
use filelist_streaming_servi.Eviction.Termination.{Evicted-cases}

-- A row that a toggle protects by what the row itself says.
abbrev pub IsShielded : Settings → Download → Type 0
IsShielded settings d =
    ((settings.protect_leased ≡ true) × (d.leased ≡ true))
    ⊎ ((settings.protect_incomplete ≡ true) × (ltb d.progress whole ≡ true))

-- `id` is the primary key.
abbrev pub UniqueIds : List Download → Type 0
UniqueIds rows = (a b : Download) → In a rows → In b rows → a.id ≡ b.id → a ≡ b

any_of_In :
    (p : Download → Bool) (d : Download) (rows : List Download)
    → In d rows
    → p d ≡ true
    → any p rows ≡ true
any_of_In p d [] m h = absurd m
any_of_In p d (x ∷ rows) m h = ground (arith, any_of_In p d rows)

protected_of_shielded :
    (settings : Settings) (d : Download) (r : Route)
    → IsShielded settings d
    → In d r.rows
    → retention_protected r settings ≡ true
unfolding retention_protected
protected_of_shielded settings d r h m = ground (
  arith,
  any_of_In (λ row. row.leased) d r.rows m,
  any_of_In (λ row. ltb row.progress whole) d r.rows m,
)

-- The removal of a torrent leaves the rows of every other torrent.
other_rows_stay :
    (env : Env) (e : String) (d : Download) (w : World)
    → UniqueIds w.downloads
    → In d w.downloads
    → str_eq d.engine_id e ≡ false
    → In d (remove_torrent env e w).0.downloads
other_rows_stay env e d w unique m other =
    In-remove_torrent env e d w
      (All-of_In _ w.downloads (λ item n pinned. elim (Bool-cases (str_eq d.id item.id)) [
        | inr differ ↦ differ
        | inl same ↦ absurd (
            ground (
              arith,
              eq_iff d.id item.id,
              unique d item m n ((eq_iff d.id item.id).0 same),
              eq_iff d.engine_id e,
              eq_iff item.engine_id e,
            ))
      ]))
      m

-- What a step keeps: the row, and that the ids are unique.
abbrev Holds : Download → List Download → Type 0
Holds d rows = In d rows × UniqueIds rows

module _ (env : Env) (settings : Settings) (d : Download) (shielded : IsShielded settings d) where
  Holds-evict_next :
      (plan p : Plan) (reason : Reason) (rules : List Runes) (w : World)
      → retention_survey env w ≡ ok p
      → plan.routes ≡ p.routes
      → Holds d w.downloads
      → Holds d (evict_next env plan reason settings rules w).0.downloads
  Holds-evict_next plan p reason rules w surveyed same (m, unique) =
      elim (evict_next_rows env plan reason settings rules w) [
        | inl unchanged ↦ subst (Holds d) (sym unchanged) (m, unique)
        | inr (v, planned, unprotected, rows) ↦
            let route =
              retention_survey-IsSurveyed env w p v surveyed (subst (In v) same planned) in
            let other : str_eq d.engine_id v.engine_id ≡ false =
              elim (Bool-cases (str_eq d.engine_id v.engine_id)) [
                | inr differ ↦ differ
                | inl pinned ↦ absurd (
                    ground (
                      arith,
                      protected_of_shielded settings d v shielded (
                          subst (In d) (sym route.rows_complete) (
                            In-keep (λ row. str_eq row.engine_id v.engine_id) d w.downloads m
                              pinned)),
                    ))
              ] in
            subst (Holds d) (sym rows) (
              other_rows_stay env v.engine_id d w unique m other,
              λ a b ma mb.
                  unique a b (In-of_In-remove_torrent env v.engine_id a w ma)
                    (In-of_In-remove_torrent env v.engine_id b w mb),
            )
      ]

  Holds-evict_until_fits :
      (fuel : ℕ) (rules : List Runes) (incoming : ℕ) (plan : Plan) (n b : ℕ) (w : World)
      → retention_survey env w ≡ ok plan
      → Holds d w.downloads
      → Holds d
          (evict_until_fits fuel env settings rules incoming
            (with_incoming incoming plan)
            n
            b
            w).world.downloads
  unfolding evict_until_fits
  Holds-evict_until_fits zero rules incoming plan n b w e h = h
  Holds-evict_until_fits (suc fuel) rules incoming plan n b w e h =
      elim (Option-cases (retention_deficit (with_incoming incoming plan) settings)) [
        | inl within ↦ rw (within, evict_until_fits) h
        | inr (reason, tripped) ↦
            rw (tripped, evict_until_fits)
              (let next = evict_next env (with_incoming incoming plan) reason settings rules w in
                let h' =
                  Holds-evict_next (with_incoming incoming plan) plan reason rules w e refl h in
                elim (Evicted-cases next.1) [
                  | inr (inr (x, refused)) ↦ rw (refused, evict_until_fits) h'
                  | inr (inl none_left) ↦ rw (none_left, evict_until_fits) h'
                  | inl (v, gone) ↦
                      rw (gone, evict_until_fits)
                        (elim (Result-cases (retention_survey env next.0)) [
                          | inr (x, refused) ↦ rw (refused, evict_until_fits) h'
                          | inl (plan', again) ↦
                              rw (again, evict_until_fits)
                                (Holds-evict_until_fits fuel rules incoming plan' (n + 1)
                                  (b + v.status.total_bytes) next.0 again h')
                        ])
                ])
      ]

  -- Where row ids are unique, a stored row that is leased while leases protect, or incomplete while
  -- incompleteness protects, is still stored after the eviction loop, however it ends.
  pub run_evictions-keeps_shielded :
      (incoming : ℕ) (w : World)
      → UniqueIds w.downloads
      → In d w.downloads
      → In d (run_evictions env settings incoming w).world.downloads
  unfolding run_evictions
  run_evictions-keeps_shielded incoming w unique m = elim (Result-cases (retention_survey env w)) [
    | inr (e, refused) ↦ rw (refused, run_evictions) m
    | inl (plan, surveyed) ↦
        rw (surveyed, run_evictions)
          (Holds-evict_until_fits (length w.downloads + 1)
            (normalize_eviction_rules settings.eviction_rules) incoming plan 0 0 w surveyed
            (m, unique)).0
  ]
