-- ===== src/Catalog/Foremost.antt =====
-- internal/application/catalog.go: which of its states `aggregateMediaStates` shows.
use filelist_streaming_servi.Base.{
  ◌≡◌, refl, sym, ◌∙◌, ◌⊎◌, inl, inr, ◌≤◌, [], ◌∷◌, List, true, false, Bool, ltb, arith, In,
  Bool-cases,
}
use filelist_streaming_servi.Catalog.{
  MediaState, Tally, priority, tally_all, tally_state, aggregate_media_states, idle, new_tally,
  settle_all, settle_any,
}

-- Of states that are not none, the aggregate's progress is the largest, its download id belongs to a state
-- of that progress (or to none, when all are 0), and its transfer state has the highest priority among
-- them and idle, and is one of these.
pub record IsForemost (states : List MediaState) (a : MediaState) : Type 0 where
  pub progress_bound : (s : MediaState) → In s states → s.progress ≤ a.progress
  pub progress_held :
      ((a.progress ≡ 0) × (a.download_id ≡ ""))
      ⊎ ((s : MediaState) × (In s states
            × ((s.progress ≡ a.progress) × (s.download_id ≡ a.download_id))))
  pub transfer_bound :
      (s : MediaState) → In s states → priority s.transfer_state ≤ priority a.transfer_state
  pub transfer_held :
      (a.transfer_state ≡ idle)
      ⊎ ((s : MediaState) × (In s states × (s.transfer_state ≡ a.transfer_state)))

tally_all_mono :
    (states : List MediaState) (t : Tally)
    → (t.result.progress ≤ (tally_all states t).result.progress)
      × (priority t.result.transfer_state ≤ priority (tally_all states t).result.transfer_state)
unfolding tally_all
tally_all_mono [] t = (omega arith, omega arith)
tally_all_mono (s ∷ states) t =
    let ih = tally_all_mono states (tally_state s t) in (ground (arith, ih.0), ground (arith, ih.1))

tally_all-bound :
    (states : List MediaState) (t : Tally) (x : MediaState)
    → In x states
    → (x.progress ≤ (tally_all states t).result.progress)
      × (priority x.transfer_state ≤ priority (tally_all states t).result.transfer_state)
unfolding tally_all
tally_all-bound [] t x m = absurd m
tally_all-bound (s ∷ states) t x (inl e) =
    let mono = tally_all_mono states (tally_state s t) in
    rw e (ground (arith, mono.0), ground (arith, mono.1))
tally_all-bound (s ∷ states) t x (inr m) = tally_all-bound states (tally_state s t) x m

tally_state-progress :
    (s : MediaState) (t : Tally)
    → let u = (tally_state s t).result in
      ((u.progress ≡ t.result.progress) × (u.download_id ≡ t.result.download_id))
      ⊎ ((u.progress ≡ s.progress) × (u.download_id ≡ s.download_id))
unfolding tally_state
tally_state-progress s t = elim (Bool-cases (ltb t.result.progress s.progress)) [
  | inl e ↦ rw e (inr (refl, refl))
  | inr e ↦ rw e (inl (refl, refl))
]

tally_state-transfer :
    (s : MediaState) (t : Tally)
    → let u = (tally_state s t).result in
      (u.transfer_state ≡ t.result.transfer_state) ⊎ (u.transfer_state ≡ s.transfer_state)
unfolding tally_state
tally_state-transfer s t = ground arith

tally_all-progress_held :
    (states : List MediaState) (t : Tally)
    → let u = (tally_all states t).result in
      ((u.progress ≡ t.result.progress) × (u.download_id ≡ t.result.download_id))
      ⊎ ((s : MediaState) × (In s states
            × ((s.progress ≡ u.progress) × (s.download_id ≡ u.download_id))))
unfolding tally_all
tally_all-progress_held [] t = inl (refl, refl)
tally_all-progress_held (s ∷ states) t = elim (tally_all-progress_held states (tally_state s t)) [
  | inr (x, (m, (e, d))) ↦ inr (x, (inr m, (e, d)))
  | inl (e, d) ↦ elim (tally_state-progress s t) [
    | inl (p, i) ↦ inl (e ∙ p, d ∙ i)
    | inr (p, i) ↦ inr (s, (inl refl, (sym (e ∙ p), sym (d ∙ i))))
  ]
]

tally_all-transfer_held :
    (states : List MediaState) (t : Tally)
    → let u = (tally_all states t).result in
      (u.transfer_state ≡ t.result.transfer_state)
      ⊎ ((s : MediaState) × (In s states × (s.transfer_state ≡ u.transfer_state)))
unfolding tally_all
tally_all-transfer_held [] t = inl refl
tally_all-transfer_held (s ∷ states) t = elim (tally_all-transfer_held states (tally_state s t)) [
  | inr (x, (m, e)) ↦ inr (x, (inr m, e))
  | inl e ↦ elim (tally_state-transfer s t) [
    | inl p ↦ inl (e ∙ p)
    | inr p ↦ inr (s, (inl refl, sym (e ∙ p)))
  ]
]

tally_all-IsForemost :
    (states : List MediaState) → IsForemost states (tally_all states new_tally).result
tally_all-IsForemost states = record {
  progress_bound = λ s m. (tally_all-bound states new_tally s m).0;
  progress_held = elim (tally_all-progress_held states new_tally) [ inl p ↦ inl p | inr h ↦ inr h ];
  transfer_bound = λ s m. (tally_all-bound states new_tally s m).1;
  transfer_held = tally_all-transfer_held states new_tally;
}

-- Of any states, `aggregateMediaStates` shows the largest progress, with the download id of a state that
-- has it (0 and no id for no progress), and the transfer state of the highest priority (idle for none).
pub aggregate-IsForemost :
    (states : List MediaState) (require_all : Bool)
    → IsForemost states (aggregate_media_states states require_all)
unfolding aggregate_media_states settle_all settle_any
aggregate-IsForemost [] require_all = tally_all-IsForemost []
aggregate-IsForemost (s ∷ states) true =
    let f = tally_all-IsForemost (s ∷ states) in
    record {
      progress_bound = f.progress_bound;
      progress_held = f.progress_held;
      transfer_bound = f.transfer_bound;
      transfer_held = f.transfer_held;
    }
aggregate-IsForemost (s ∷ states) false =
    let f = tally_all-IsForemost (s ∷ states) in
    record {
      progress_bound = f.progress_bound;
      progress_held = f.progress_held;
      transfer_bound = f.transfer_bound;
      transfer_held = f.transfer_held;
    }
