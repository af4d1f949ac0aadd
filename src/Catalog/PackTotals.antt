-- ===== src/Catalog/PackTotals.antt =====
-- internal/application/catalog.go: what the totals of `packSourceState` come to.
use native.Mathlib.Nat.{mul-le-mul_right, div-lt_iff_lt-mul}
use filelist_streaming_servi.Base.{
  All, Bool, Bool-cases, In, List, String, [], arith, if◌then◌else◌, inl, inr, length, ltb, map,
  subst, true, ℕ, ◌&&◌, ◌*◌, ◌+◌, ◌/◌, ◌==◌, ◌∙◌, ◌∷◌, ◌≡◌, ◌≤◌,
}
use filelist_streaming_servi.Catalog.Foremost.{aggregate-IsForemost}
use filelist_streaming_servi.Catalog.Pack.{
  Part, tally_part, tally_parts, settle_pack, pack_state, pack_source_state, PackTally, parts,
  new_pack_tally,
}
use filelist_streaming_servi.Catalog.{
  MediaState, whole, is_downloaded, aggregate_media_states, CatalogEpisode,
}

pub every_downloaded : List Part → Bool
every_downloaded [] = true
every_downloaded (p ∷ ps) = is_downloaded p.state.download_state && every_downloaded ps

-- A part whose progress is at most the whole.
abbrev pub IsPart : Part → Type 0
IsPart p = p.state.progress ≤ whole

tally_part-sums :
    (progress : ℕ) (p : Part) (t : PackTally)
    → let u = tally_part progress p t in
      (u.weighted ≡ t.weighted + p.state.progress * p.weight) × (u.total ≡ t.total + p.weight)
unfolding tally_part
tally_part-sums progress p t = (ground arith, ground arith)

tally_part-downloaded :
    (progress : ℕ) (p : Part) (t : PackTally)
    → (tally_part progress p t).downloaded
      ≡ (if is_downloaded p.state.download_state then t.downloaded + 1 else t.downloaded)
unfolding tally_part is_downloaded
tally_part-downloaded progress p t = ground arith

tally_parts-bounds :
    (progress : ℕ) (ps : List Part) (t : PackTally)
    → All IsPart ps
    → t.weighted ≤ whole * t.total
    → let u = tally_parts progress ps t in u.weighted ≤ whole * u.total
unfolding tally_parts
tally_parts-bounds progress [] t h b = b
tally_parts-bounds progress (p ∷ ps) t h b =
    tally_parts-bounds progress ps (tally_part progress p t) h.1
      (omega (arith, tally_part-sums progress p t, mul-le-mul_right p.weight h.0, b))

tally_parts-downloaded :
    (progress : ℕ) (ps : List Part) (t : PackTally)
    → let u = tally_parts progress ps t in
      (u.downloaded ≤ t.downloaded + length ps)
      × ((u.downloaded == t.downloaded + length ps) ≡ every_downloaded ps)
unfolding tally_parts every_downloaded
tally_parts-downloaded progress [] t = (omega arith, ground arith)
tally_parts-downloaded progress (p ∷ ps) t =
    let ih = tally_parts-downloaded progress ps (tally_part progress p t) in
    let step = tally_part-downloaded progress p t in
    (ground (arith, ih.0, step), ground (arith, ih, step))

In-map_progress :
    (ps : List Part) (s : MediaState)
    → All IsPart ps
    → In s (map (λ q. q.state) ps)
    → s.progress ≤ whole
In-map_progress [] s h m = absurd m
In-map_progress (p ∷ ps) s h (inl e) = rw e h.0
In-map_progress (p ∷ ps) s h (inr m) = In-map_progress ps s h.1 m

mean-le :
    (weighted total : ℕ) → ltb 0 total ≡ true → weighted ≤ whole * total → weighted / total ≤ whole
mean-le weighted total pos_ b =
    let strict =
      (div-lt_iff_lt-mul {k = total} {x = weighted} {y = whole + 1} (ground arith)).1
        (ground arith) in
    omega (arith, strict)

aggregate-progress_le :
    (ps : List Part)
    → All IsPart ps
    → (aggregate_media_states (map (λ q. q.state) ps) true).progress ≤ whole
aggregate-progress_le ps h =
    elim (aggregate-IsForemost (map (λ q. q.state) ps) true).progress_held [
      | inl (e, d) ↦ rw e (omega arith)
      | inr (s, (m, (e, d))) ↦ subst (λ n. n ≤ whole) e (In-map_progress ps s h m)
    ]

settle_pack-downloaded :
    (n : ℕ) (t : PackTally) → is_downloaded (settle_pack n t) ≡ (t.downloaded == n)
unfolding settle_pack is_downloaded
settle_pack-downloaded n t = ground arith

pack_state-progress : (ps : List Part) → All IsPart ps → (pack_state ps).progress ≤ whole
unfolding pack_state
pack_state-progress [] h = omega arith
pack_state-progress (p ∷ ps) h =
    let states = map (λ q. q.state) (p ∷ ps) in
    let a = aggregate_media_states states true in
    let t = tally_parts a.progress (p ∷ ps) (new_pack_tally a.download_id) in
    let sums =
      tally_parts-bounds a.progress (p ∷ ps) (new_pack_tally a.download_id) h (omega arith) in
    elim (Bool-cases (ltb 0 t.total)) [
      | inl e ↦ rw e (mean-le t.weighted t.total e sums)
      | inr e ↦ rw e (aggregate-progress_le (p ∷ ps) h)
    ]

pack_state-downloaded :
    (ps : List Part)
    → ltb 0 (length ps) ≡ true
    → is_downloaded (pack_state ps).download_state ≡ every_downloaded ps
unfolding pack_state
pack_state-downloaded [] h = ground arith
pack_state-downloaded (p ∷ ps) h =
    let a = aggregate_media_states (map (λ q. q.state) (p ∷ ps)) true in
    let t = tally_parts a.progress (p ∷ ps) (new_pack_tally a.download_id) in
    let c = tally_parts-downloaded a.progress (p ∷ ps) (new_pack_tally a.download_id) in
    let n : 0 + length (p ∷ ps) ≡ length (p ∷ ps) = omega arith in
    settle_pack-downloaded (length (p ∷ ps)) t
    ∙ subst (λ n. (t.downloaded == n) ≡ every_downloaded (p ∷ ps)) n c.1

-- The progress of a pack is at most the whole when that of each of its files is.
pub pack_source_state-progress :
    (id : String) (episodes : List CatalogEpisode)
    → All IsPart (parts id episodes)
    → (pack_source_state id episodes).progress ≤ whole
unfolding pack_source_state
pack_source_state-progress id episodes h = pack_state-progress (parts id episodes) h

-- A pack that has files is shown as downloaded exactly when each of them is.
pub pack_source_state-downloaded :
    (id : String) (episodes : List CatalogEpisode)
    → ltb 0 (length (parts id episodes)) ≡ true
    → is_downloaded (pack_source_state id episodes).download_state
      ≡ every_downloaded (parts id episodes)
unfolding pack_source_state
pack_source_state-downloaded id episodes h = pack_state-downloaded (parts id episodes) h
