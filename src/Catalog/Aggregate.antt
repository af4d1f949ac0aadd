-- ===== src/Catalog/Aggregate.antt =====
-- internal/application/catalog.go: the download and watch states that `aggregateMediaStates` counts.
use filelist_streaming_servi.Base.{
  ℕ, ◌≡◌, ◌≤◌, refl, Bool, true, false, ◌&&◌, ◌+◌, List, [], ◌∷◌, ltb, ◌==◌, if◌then◌else◌, length,
  any, arith,
}
use filelist_streaming_servi.Catalog.{
  MediaState, DownloadState, WatchState, none_held, downloading, partial, downloaded, unwatched,
  in_progress, partly, watched, is_downloaded, is_managed, is_watched, is_started, Tally,
  tally_state, tally_all, new_tally, aggregate_media_states, settle_all, settle_any,
}

every : (MediaState → Bool) → List MediaState → Bool
every p [] = true
every p (s ∷ states) = p s && every p states

-- The states counted by quantifiers: with `require_all` every state must be downloaded or watched, without
-- it one is enough. Of no state nothing is held or watched, in both modes.
unfoldable pub download_summary : List MediaState → Bool → DownloadState
unfolding is_downloaded is_managed every
download_summary [] require_all = none_held
download_summary (s ∷ states) true =
    if every (λ x. is_downloaded x.download_state) (s ∷ states)
    then downloaded
    else if any (λ x. is_managed x.download_state) (s ∷ states)
    then partial
    else none_held
download_summary (s ∷ states) false =
    if any (λ x. is_downloaded x.download_state) (s ∷ states)
    then downloaded
    else if any (λ x. is_managed x.download_state) (s ∷ states)
    then downloading
    else none_held

unfoldable pub watch_summary : List MediaState → Bool → WatchState
unfolding is_watched is_started every
watch_summary [] require_all = unwatched
watch_summary (s ∷ states) true =
    if every (λ x. is_watched x.watch_state) (s ∷ states)
    then watched
    else if any (λ x. is_started x.watch_state) (s ∷ states)
    then partly
    else unwatched
watch_summary (s ∷ states) false =
    if any (λ x. is_watched x.watch_state) (s ∷ states)
    then watched
    else if any (λ x. is_started x.watch_state) (s ∷ states)
    then in_progress
    else unwatched

count : (MediaState → Bool) → List MediaState → ℕ
count p [] = 0
count p (s ∷ states) = if p s then count p states + 1 else count p states

tally_all-counts :
    (states : List MediaState) (t : Tally)
    → let u = tally_all states t in
      (u.downloaded ≡ t.downloaded + count (λ s. is_downloaded s.download_state) states)
      × ((u.managed ≡ t.managed + count (λ s. is_managed s.download_state) states)
          × ((u.watched ≡ t.watched + count (λ s. is_watched s.watch_state) states)
              × (u.started ≡ t.started + count (λ s. is_started s.watch_state) states)))
unfolding tally_all count
tally_all-counts [] t = (omega arith, (omega arith, (omega arith, omega arith)))
tally_all-counts (s ∷ states) t =
    let ih = tally_all-counts states (tally_state s t) in
    (
      ground (arith, ih.0),
      (ground (arith, ih.1.0), (ground (arith, ih.1.1.0), ground (arith, ih.1.1.1))),
    )

new_tally-counts :
    (states : List MediaState)
    → let u = tally_all states new_tally in
      (u.downloaded ≡ count (λ s. is_downloaded s.download_state) states)
      × ((u.managed ≡ count (λ s. is_managed s.download_state) states)
          × ((u.watched ≡ count (λ s. is_watched s.watch_state) states)
              × (u.started ≡ count (λ s. is_started s.watch_state) states)))
new_tally-counts states =
    let c = tally_all-counts states new_tally in
    (omega (arith, c.0), (omega (arith, c.1.0), (omega (arith, c.1.1.0), omega (arith, c.1.1.1))))

count-le : (p : MediaState → Bool) (states : List MediaState) → count p states ≤ length states
unfolding count
count-le p [] = omega arith
count-le p (s ∷ states) = ground (arith, count-le p states)

count-every :
    (p : MediaState → Bool) (states : List MediaState)
    → (count p states == length states) ≡ every p states
unfolding count every
count-every p [] = refl
count-every p (s ∷ states) = ground (arith, count-every p states, count-le p states)

count-any :
    (p : MediaState → Bool) (states : List MediaState) → ltb 0 (count p states) ≡ any p states
unfolding count
count-any p [] = refl
count-any p (s ∷ states) = ground (arith, count-any p states)

-- The download and watch states of an aggregate of any number of states, which `aggregateMediaStates`
-- finds by counting, are those that the summaries by quantifiers give, with and without `requireAll`; an
-- aggregate of no state is neither held nor watched in either mode.
pub aggregate-summary :
    (states : List MediaState) (require_all : Bool)
    → let a = aggregate_media_states states require_all in
      (a.download_state ≡ download_summary states require_all)
      × (a.watch_state ≡ watch_summary states require_all)
unfolding aggregate_media_states download_summary watch_summary settle_all settle_any
aggregate-summary [] require_all = (refl, refl)
aggregate-summary (s ∷ states) true =
    let c = new_tally-counts (s ∷ states) in
    (
      rw
          (
            c.0,
            c.1.0,
            count-every (λ x. is_downloaded x.download_state) (s ∷ states),
            count-any (λ x. is_managed x.download_state) (s ∷ states),
          )
          refl,
      rw
          (
            c.1.1.0,
            c.1.1.1,
            count-every (λ x. is_watched x.watch_state) (s ∷ states),
            count-any (λ x. is_started x.watch_state) (s ∷ states),
          )
          refl,
    )
aggregate-summary (s ∷ states) false =
    let c = new_tally-counts (s ∷ states) in
    (
      rw
          (
            c.0,
            c.1.0,
            count-any (λ x. is_downloaded x.download_state) (s ∷ states),
            count-any (λ x. is_managed x.download_state) (s ∷ states),
          )
          refl,
      rw
          (
            c.1.1.0,
            c.1.1.1,
            count-any (λ x. is_watched x.watch_state) (s ∷ states),
            count-any (λ x. is_started x.watch_state) (s ∷ states),
          )
          refl,
    )
