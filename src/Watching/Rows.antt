-- ===== src/Watching/Rows.antt =====
-- The stored positions of internal/application/service.go under any sequence of calls.
use filelist_streaming_servi.Base.{
  ℕ, ◌^◌, ◌≤◌, ◌<◌, ◌≡◌, refl, sym, ◌∙◌, subst, Bool, true, false, ◌||◌, some, List, [], ◌∷◌,
  String, Result, ok, err, str_eq, eq_iff, if◌then◌else◌, All, arith, Bool-cases, Option-cases,
  Result-cases, inl, inr, guard-ok,
}
use filelist_streaming_servi.Domain.{Download, PlaybackState}
use filelist_streaming_servi.Watching.{
  Shelves, Database, WatchError, find_playback, put_playback, save_playback, get_download,
  prior_playback, marked_playback, made_playback, database_failed, blank_playback, clamp,
  is_negative, moved, marked, update_playback, set_watched, Viewing, move, mark, watch, watch_all,
  stored_playback,
}

-- The times of a row are `int64` that are not negative, and the position is in a known duration.
abbrev pub InDuration : PlaybackState → Type 0
InDuration p =
    (p.position_ms < 2 ^ 63)
    × (p.duration_ms < 2 ^ 63)
    × (0 < p.duration_ms → p.position_ms ≤ p.duration_ms)

All-put_playback :
    (P : PlaybackState → Type 0) (p : PlaybackState) (rows : List PlaybackState)
    → P p
    → All P rows
    → All P (put_playback p rows)
unfolding put_playback
All-put_playback P p [] h a = (h, tt)
All-put_playback P p (q ∷ rows) h a = elim (Bool-cases (str_eq q.source_id p.source_id)) [
  | inl e ↦ rw (All, e) (h, a.1)
  | inr e ↦ rw (All, e) (a.0, All-put_playback P p rows h a.1)
]

All-find_playback :
    (P : PlaybackState → Type 0) (source : String) (rows : List PlaybackState) (p : PlaybackState)
    → All P rows
    → find_playback source rows ≡ some p
    → P p
unfolding find_playback
All-find_playback P source [] p a e = absurd (ground arith)
All-find_playback P source (q ∷ rows) p a e = elim (Bool-cases (str_eq q.source_id source)) [
  | inl f ↦ let g : q ≡ p = ground arith in subst P g a.0
  | inr f ↦ All-find_playback P source rows p a.1 (ground arith)
]

other : (a b c : String) → str_eq a b ≡ false → str_eq a c ≡ true → str_eq b c ≡ false
other a b c h e = elim (Bool-cases (str_eq b c)) [
  | inl f ↦
      let same : a ≡ b = (eq_iff a c).0 e ∙ sym ((eq_iff b c).0 f) in
      let equal : str_eq a b ≡ true = (eq_iff a b).1 same in ground arith
  | inr f ↦ f
]

-- What is stored after a save.
pub find_playback-put :
    (source : String) (p : PlaybackState) (rows : List PlaybackState)
    → find_playback source (put_playback p rows)
      ≡ (if str_eq p.source_id source then some p else find_playback source rows)
unfolding find_playback put_playback
find_playback-put source p [] = refl
find_playback-put source p (q ∷ rows) = elim (Bool-cases (str_eq q.source_id p.source_id)) [
  | inl e ↦
      let same : q.source_id ≡ p.source_id = (eq_iff q.source_id p.source_id).0 e in
      elim (Bool-cases (str_eq p.source_id source)) [
        | inl f ↦ rw (put_playback, e, find_playback, f) refl
        | inr f ↦
            let g : str_eq q.source_id source ≡ false =
              subst (λ k. str_eq k source ≡ false) (sym same) f in
            rw (put_playback, e, find_playback, f, g) refl
      ]
  | inr e ↦ elim (Bool-cases (str_eq q.source_id source)) [
    | inl g ↦
        let f : str_eq p.source_id source ≡ false = other q.source_id p.source_id source e g in
        rw (put_playback, e, find_playback, f, g) refl
    | inr g ↦ rw (put_playback, e, find_playback, g) (find_playback-put source p rows)
  ]
]

-- A save keeps what holds of every row, if it holds of the stored one.
All-save_playback :
    (P : PlaybackState → Type 0) (db : Database) (p : PlaybackState) (s : Shelves)
    → P (stored_playback p)
    → All P s.playback
    → All P (save_playback db p s).1.playback
unfolding save_playback
All-save_playback P db p s h a = elim (Bool-cases (db.save_fails s)) [
  | inl e ↦ rw e a
  | inr e ↦ rw e (All-put_playback P (stored_playback p) s.playback h a)
]

moved-InDuration :
    (threshold now position duration : ℕ) (source : String) (d : Download) (p : PlaybackState)
    → (is_negative position || is_negative duration) ≡ false
    → InDuration (moved threshold now (clamp position duration) duration source d p)
unfolding is_negative moved clamp
moved-InDuration threshold now position duration source d p h = ground arith

marked-InDuration :
    (now : ℕ) (watched : Bool) (p : PlaybackState)
    → InDuration p
    → InDuration (marked now watched p)
unfolding marked
marked-InDuration now true p h = ground arith
marked-InDuration now false p h = ground arith

made-InDuration :
    (source : String) (r : Result WatchError Download) (p : PlaybackState)
    → made_playback source r ≡ ok p
    → InDuration p
unfolding made_playback
made-InDuration source (err e) p h = absurd (ground arith)
made-InDuration source (ok d) p h =
    let same : record (blank_playback source) {
      release_id = d.release_id;
      file_index = d.file_index;
    }
        ≡ p =
      ground arith in
    subst InDuration same (omega arith, omega arith, λ k. omega arith)

prior_playback-InDuration :
    (db : Database) (source : String) (s : Shelves) (p : PlaybackState)
    → All InDuration s.playback
    → marked_playback db source s ≡ ok p
    → InDuration p
unfolding marked_playback
prior_playback-InDuration db source s p a h =
    elim (Option-cases (find_playback source s.playback)) [
      | inr (q, e) ↦
          let same : q ≡ p = ground arith in
          subst InDuration same (All-find_playback InDuration source s.playback q a e)
      | inl e ↦
          let (g, k) = guard-ok (db.playback_fails s) database_failed _ p h in
          made-InDuration source (get_download db source s) p (ground arith)
    ]

update_playback-InDuration :
    (db : Database) (threshold now position duration : ℕ) (source : String) (s : Shelves)
    → All InDuration s.playback
    → All InDuration (update_playback db threshold now source position duration s).1.playback
unfolding stored_playback update_playback
update_playback-InDuration db threshold now position duration source s a =
    elim (Bool-cases (is_negative position || is_negative duration)) [
      | inl e ↦ rw (update_playback, e) a
      | inr e ↦ elim (Result-cases (get_download db source s)) [
        | inr (x, f) ↦ rw (update_playback, e, f) a
        | inl (d, f) ↦ elim (Result-cases (prior_playback db source s)) [
          | inr (x, g) ↦ rw (update_playback, e, f, g) a
          | inl (p, g) ↦
              rw (update_playback, e, f, g)
                (All-save_playback InDuration db
                  (moved threshold now (clamp position duration) duration source d p) s
                  (moved-InDuration threshold now position duration source d p e) a)
        ]
      ]
    ]

set_watched-InDuration :
    (db : Database) (now : ℕ) (source : String) (watched : Bool) (s : Shelves)
    → All InDuration s.playback
    → All InDuration (set_watched db now source watched s).1.playback
unfolding stored_playback set_watched
set_watched-InDuration db now source watched s a =
    elim (Result-cases (marked_playback db source s)) [
      | inr (x, f) ↦ rw (set_watched, f) a
      | inl (p, f) ↦
          rw (set_watched, f)
            (All-save_playback InDuration db (marked now watched p) s
              (marked-InDuration now watched p (prior_playback-InDuration db source s p a f)) a)
    ]

watch-InDuration :
    (db : Database) (threshold : ℕ) (a : Viewing) (s : Shelves)
    → All InDuration s.playback
    → All InDuration (watch db threshold a s).playback
unfolding watch
watch-InDuration db threshold (move now source position duration) s h =
    update_playback-InDuration db threshold now position duration source s h
watch-InDuration db threshold (mark now source watched) s h =
    set_watched-InDuration db now source watched s h

pub watch_all-InDuration :
    (db : Database) (threshold : ℕ) (actions : List Viewing) (s : Shelves)
    → All InDuration s.playback
    → All InDuration (watch_all db threshold actions s).playback
unfolding watch_all
watch_all-InDuration db threshold [] s h = h
watch_all-InDuration db threshold (a ∷ actions) s h =
    watch_all-InDuration db threshold actions (watch db threshold a s)
      (watch-InDuration db threshold a s h)
