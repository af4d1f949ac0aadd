-- ===== src/Watching/Watched.antt =====
-- The mark of a watched source of internal/application/service.go under any sequence of calls.
use filelist_streaming_servi.Base.{
  ℕ, ◌≡◌, refl, sym, ◌∙◌, ap, subst, Bool, true, false, ◌||◌, some, List, [], ◌∷◌, String, Result,
  ok, err, str_eq, eq_iff, eq_refl, All, arith, Bool-cases, Option-cases, Result-cases, inl, inr,
  guard-ok, ◌⊎◌,
}
use filelist_streaming_servi.Domain.{Download, PlaybackState}
use filelist_streaming_servi.Watching.{
  Shelves, Database, WatchError, find_playback, save_playback, get_download, prior_playback,
  marked_playback, made_playback, database_failed, blank_playback, clamp, is_negative, moved,
  marked, update_playback, set_watched, Viewing, move, mark, watch, watch_all, stored_playback,
}
use filelist_streaming_servi.Watching.Rows.{InDuration, find_playback-put, watch_all-InDuration}

-- The source is shown as watched.
abbrev pub Shown : String → Shelves → Type 0
Shown source s =
    (p : PlaybackState) × (find_playback source s.playback ≡ some p) × (p.watched ≡ true)

-- The call does not take the mark from the source.
abbrev pub Spares : String → Viewing → Type 0
Spares source (move now s position duration) = Unit
Spares source (mark now s watched) = (str_eq s source ≡ false) ⊎ (watched ≡ true)

Shown-save :
    (db : Database) (source : String) (q : PlaybackState) (s : Shelves)
    → (str_eq q.source_id source ≡ true → q.watched ≡ true)
    → Shown source s
    → Shown source (save_playback db q s).1
unfolding save_playback stored_playback
Shown-save db source q s w (p, f, g) = elim (Bool-cases (db.save_fails s)) [
  | inl e ↦ rw e (p, f, g)
  | inr e ↦ elim (Bool-cases (str_eq q.source_id source)) [
    | inl h ↦ rw e (
      stored_playback q,
      find_playback-put source (stored_playback q) s.playback ∙ rw h refl,
      w h,
    )
    | inr h ↦ rw e (p, find_playback-put source (stored_playback q) s.playback ∙ rw h f, g)
  ]
]

-- A row that is found is the one that a call starts from.
prior_playback-found :
    (db : Database) (a source : String) (s : Shelves) (p q : PlaybackState)
    → str_eq a source ≡ true
    → find_playback source s.playback ≡ some p
    → prior_playback db a s ≡ ok q
    → q ≡ p
unfolding prior_playback
prior_playback-found db a source s p q e f h =
    let same : a ≡ source = (eq_iff a source).0 e in
    let found : find_playback a s.playback ≡ some p = rw same f in ground arith

Shown-update_playback :
    (db : Database) (threshold now position duration : ℕ) (a source : String) (s : Shelves)
    → Shown source s
    → Shown source (update_playback db threshold now a position duration s).1
unfolding update_playback moved
Shown-update_playback db threshold now position duration a source s shown =
    elim (Bool-cases (is_negative position || is_negative duration)) [
      | inl e ↦ rw (update_playback, e) shown
      | inr e ↦ elim (Result-cases (get_download db a s)) [
        | inr (x, f) ↦ rw (update_playback, e, f) shown
        | inl (d, f) ↦ elim (Result-cases (prior_playback db a s)) [
          | inr (x, g) ↦ rw (update_playback, e, f, g) shown
          | inl (q, g) ↦
              rw (update_playback, e, f, g)
                (Shown-save db source (moved threshold now (clamp position duration) duration a d q)
                  s
                  (λ h.
                    let same : q ≡ shown.0 =
                      prior_playback-found db a source s shown.0 q h shown.1 g in
                    let kept : q.watched ≡ true = ap (λ k. k.watched) same ∙ shown.2 in
                    ground arith)
                  shown)
        ]
      ]
    ]

find_playback-source :
    (a : String) (rows : List PlaybackState) (p : PlaybackState)
    → find_playback a rows ≡ some p
    → str_eq p.source_id a ≡ true
unfolding find_playback
find_playback-source a [] p e = absurd (ground arith)
find_playback-source a (q ∷ rows) p e = elim (Bool-cases (str_eq q.source_id a)) [
  | inl f ↦ let same : q ≡ p = ground arith in subst (λ k. str_eq k.source_id a ≡ true) same f
  | inr f ↦ find_playback-source a rows p (ground arith)
]

made_playback-source :
    (a : String) (r : Result WatchError Download) (p : PlaybackState)
    → made_playback a r ≡ ok p
    → str_eq p.source_id a ≡ true
unfolding made_playback
made_playback-source a (err e) p h = absurd (ground arith)
made_playback-source a (ok d) p h =
    let same : record (blank_playback a) { release_id = d.release_id; file_index = d.file_index }
        ≡ p =
      ground arith in
    subst (λ k. str_eq k.source_id a ≡ true) same (eq_refl a)

marked_playback-source :
    (db : Database) (a : String) (s : Shelves) (p : PlaybackState)
    → marked_playback db a s ≡ ok p
    → str_eq p.source_id a ≡ true
unfolding marked_playback
marked_playback-source db a s p h =
    let (g, k) = guard-ok (db.playback_fails s) database_failed _ p h in
    elim (Option-cases (find_playback a s.playback)) [
      | inr (q, e) ↦
          let same : q ≡ p = ground arith in
          subst (λ r. str_eq r.source_id a ≡ true) same (find_playback-source a s.playback q e)
      | inl e ↦ made_playback-source a (get_download db a s) p (ground arith)
    ]

Shown-set_watched :
    (db : Database) (now : ℕ) (a source : String) (watched : Bool) (s : Shelves)
    → (str_eq a source ≡ false) ⊎ (watched ≡ true)
    → Shown source s
    → Shown source (set_watched db now a watched s).1
unfolding set_watched marked
Shown-set_watched db now a source watched s spares shown =
    elim (Result-cases (marked_playback db a s)) [
      | inr (x, f) ↦ rw (set_watched, f) shown
      | inl (p, f) ↦
          rw (set_watched, f)
            (Shown-save db source (marked now watched p) s
              (λ h. still_watched p spares (marked_playback-source db a s p f) h) shown)
    ]
  where
    still_watched :
        (p : PlaybackState)
        → (str_eq a source ≡ false) ⊎ (watched ≡ true)
        → str_eq p.source_id a ≡ true
        → str_eq p.source_id source ≡ true
        → watched ≡ true
    still_watched p (inr e) f h = e
    still_watched p (inl e) f h =
        let same : a ≡ source =
          sym ((eq_iff p.source_id a).0 f) ∙ (eq_iff p.source_id source).0 h in
        let equal : str_eq a source ≡ true = (eq_iff a source).1 same in absurd (ground arith)

Shown-watch :
    (db : Database) (threshold : ℕ) (source : String) (a : Viewing) (s : Shelves)
    → Spares source a
    → Shown source s
    → Shown source (watch db threshold a s)
unfolding watch
Shown-watch db threshold source (move now a position duration) s spares shown =
    Shown-update_playback db threshold now position duration a source s shown
Shown-watch db threshold source (mark now a watched) s spares shown =
    Shown-set_watched db now a source watched s spares shown

Shown-watch_all :
    (db : Database) (threshold : ℕ) (source : String) (actions : List Viewing) (s : Shelves)
    → All (Spares source) actions
    → Shown source s
    → Shown source (watch_all db threshold actions s)
unfolding watch_all
Shown-watch_all db threshold source [] s spares shown = shown
Shown-watch_all db threshold source (a ∷ actions) s spares shown =
    Shown-watch_all db threshold source actions (watch db threshold a s) spares.1
      (Shown-watch db threshold source a s spares.0 shown)

Shown-watch_all-each :
    (db : Database) (threshold : ℕ) (actions : List Viewing) (s : Shelves) (sources : List String)
    → All (λ source. Shown source s × All (Spares source) actions) sources
    → All (λ source. Shown source (watch_all db threshold actions s)) sources
Shown-watch_all-each db threshold actions s [] h = tt
Shown-watch_all-each db threshold actions s (source ∷ sources) ((shown, spares), h) = (
  Shown-watch_all db threshold source actions s spares shown,
  Shown-watch_all-each db threshold actions s sources h,
)

-- On a store in which every position is within its known duration, let any sequence of calls be made,
-- whatever the database refuses, and let `sources` be any sources, also none, that are watched and from
-- which no call takes the mark. Then afterwards every position is within its known duration, and each of
-- the sources is still watched.
pub watch_all-kept :
    (db : Database) (threshold : ℕ) (sources : List String) (actions : List Viewing) (s : Shelves)
    → All InDuration s.playback
    → All (λ source. Shown source s × All (Spares source) actions) sources
    → All InDuration (watch_all db threshold actions s).playback
      × All (λ source. Shown source (watch_all db threshold actions s)) sources
watch_all-kept db threshold sources actions s durations shown = (
  watch_all-InDuration db threshold actions s durations,
  Shown-watch_all-each db threshold actions s sources shown,
)
