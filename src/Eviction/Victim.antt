-- ===== src/Eviction/Victim.antt =====
-- internal/application/retention.go: what `evictNext` picks.
use filelist_streaming_servi.Base.{
  ◌≡◌, refl, sym, subst, inl, Bool, true, false, not, none, List, [], ◌∷◌, Runes, arith, All, In,
  All-in, All-of_In, In-of_In-keep, sort, In-of_In-sort, In-sort, FirstIsLeast, FirstIsLeast-sort,
  ◌⊎◌, inr, some,
}
use filelist_streaming_servi.Settings.{Settings}
use filelist_streaming_servi.Retention.{Route, retention_protected, evicted_before}
use filelist_streaming_servi.Retention.Order.{evicted_before_asym, evicted_before_neg_trans}
use filelist_streaming_servi.World.{World, Env}
use filelist_streaming_servi.Survey.{Plan, Reason}
use filelist_streaming_servi.Eviction.{
  remove_torrent, candidates, evicted, nothing, evict_first, evict_next, Error, failed,
}

In-of_In-candidates :
    (settings : Settings) (r : Route) (rs : List Route)
    → In r (candidates settings rs)
    → In r rs × (retention_protected r settings ≡ false)
In-of_In-candidates settings r rs m =
    ground (arith, In-of_In-keep (λ r. not (retention_protected r settings)) r rs m)

candidates-nil :
    (settings : Settings) (rs : List Route)
    → candidates settings rs ≡ []
    → All (λ r. retention_protected r settings ≡ true) rs
candidates-nil settings [] h = tt
candidates-nil settings (r ∷ rs) h = ground (arith, candidates-nil settings rs)

sort-nil : (less : Route → Route → Bool) (rs : List Route) → sort less rs ≡ [] → rs ≡ []
sort-nil less [] h = refl
sort-nil less (r ∷ rs) h = absurd (subst (In r) h (In-sort less r (r ∷ rs) (inl refl)))

evict_first_evicted :
    (env : Env) (reason : Reason) (rs : List Route) (w : World) (v : Route)
    → (evict_first env reason rs w).1 ≡ evicted v
    → ((rest : List Route) × (rs ≡ v ∷ rest))
      × ((remove_torrent env v.engine_id w).1 ≡ none)
      × ((evict_first env reason rs w).0.downloads ≡ (remove_torrent env v.engine_id w).0.downloads)
unfolding evict_first
evict_first_evicted env reason [] w v h = cc
evict_first_evicted env reason (r ∷ rest) w v h = ((rest, ground arith), ground arith, ground arith)

evict_first_nothing :
    (env : Env) (reason : Reason) (rs : List Route) (w : World)
    → (evict_first env reason rs w).1 ≡ nothing
    → (rs ≡ []) × ((evict_first env reason rs w).0 ≡ w)
unfolding evict_first
evict_first_nothing env reason [] w h = (refl, refl)
evict_first_nothing env reason (r ∷ rest) w h = absurd (ground arith)

-- What is known of the route that `evictNext` evicts, of the deletion's success, and of the rows left.
pub record IsVictim (env : Env) (plan : Plan) (settings : Settings) (rules : List Runes)
    (w w' : World) (v : Route) : Type 0 where
  pub planned : In v plan.routes
  pub unprotected : retention_protected v settings ≡ false
  pub first : All (λ r. evicted_before rules r v ≡ false) (candidates settings plan.routes)
  pub removed : (remove_torrent env v.engine_id w).1 ≡ none
  pub rows : w'.downloads ≡ (remove_torrent env v.engine_id w).0.downloads

-- A route that `evictNext` evicts is one of the plan and unprotected, no unprotected route of the plan
-- comes before it in the order of the rules, the removal of its torrent succeeded, and the rows left are
-- those that the removal leaves.
pub evict_next-IsVictim :
    (env : Env) (plan : Plan) (reason : Reason) (settings : Settings) (rules : List Runes)
    (w : World) (v : Route)
    → (evict_next env plan reason settings rules w).1 ≡ evicted v
    → IsVictim env plan settings rules w (evict_next env plan reason settings rules w).0 v
unfolding evict_next
evict_next-IsVictim env plan reason settings rules w v h =
    let less = evicted_before rules in
    let cs = candidates settings plan.routes in
    let ((rest, e), removed, rows) = evict_first_evicted env reason (sort less cs) w v h in
    let least : FirstIsLeast less (v ∷ rest) =
      subst (FirstIsLeast less) e
        (FirstIsLeast-sort less (evicted_before_asym rules) (evicted_before_neg_trans rules) cs) in
    let chosen =
      In-of_In-candidates settings v plan.routes
        (In-of_In-sort less v cs (subst (In v) (sym e) (inl refl))) in
    record {
      planned = chosen.0;
      unprotected = chosen.1;
      first =
          All-of_In (λ r. less r v ≡ false) cs
            (λ r m.
              All-in (λ r. less r v ≡ false) r (v ∷ rest) least
                (subst (In r) e (In-sort less r cs m)));
      removed = removed;
      rows = rows;
    }

pub evict_next_nothing :
    (env : Env) (plan : Plan) (reason : Reason) (settings : Settings) (rules : List Runes)
    (w : World)
    → (evict_next env plan reason settings rules w).1 ≡ nothing
    → All (λ r. retention_protected r settings ≡ true) plan.routes
      × ((evict_next env plan reason settings rules w).0 ≡ w)
unfolding evict_next
evict_next_nothing env plan reason settings rules w h =
    let less = evicted_before rules in
    let cs = candidates settings plan.routes in
    let (e, same) = evict_first_nothing env reason (sort less cs) w h in
    (candidates-nil settings plan.routes (sort-nil less cs e), same)

evict_first_failed :
    (env : Env) (reason : Reason) (rs : List Route) (w : World) (e : Error)
    → (evict_first env reason rs w).1 ≡ failed e
    → (v : Route) × ((remove_torrent env v.engine_id w).1 ≡ some e)
unfolding evict_first
evict_first_failed env reason [] w e h = absurd (ground arith)
evict_first_failed env reason (r ∷ rest) w e h = (r, ground arith)

pub evict_next_failed :
    (env : Env) (plan : Plan) (reason : Reason) (settings : Settings) (rules : List Runes)
    (w : World) (e : Error)
    → (evict_next env plan reason settings rules w).1 ≡ failed e
    → (v : Route) × ((remove_torrent env v.engine_id w).1 ≡ some e)
unfolding evict_next
evict_next_failed env plan reason settings rules w e h =
    evict_first_failed env reason (sort (evicted_before rules) (candidates settings plan.routes)) w
      e h

evict_first_rows :
    (env : Env) (reason : Reason) (rs : List Route) (w : World)
    → ((evict_first env reason rs w).0.downloads ≡ w.downloads)
      ⊎ ((v : Route) × In v rs
          × ((evict_first env reason rs w).0.downloads
              ≡ (remove_torrent env v.engine_id w).0.downloads))
unfolding evict_first
evict_first_rows env reason [] w = inl refl
evict_first_rows env reason (r ∷ rest) w = inr (r, inl refl, ground arith)

-- Whatever `evictNext` answers, it has touched the rows of one unprotected route at most.
pub evict_next_rows :
    (env : Env) (plan : Plan) (reason : Reason) (settings : Settings) (rules : List Runes)
    (w : World)
    → ((evict_next env plan reason settings rules w).0.downloads ≡ w.downloads)
      ⊎ ((v : Route) × In v plan.routes
          × (retention_protected v settings ≡ false)
          × ((evict_next env plan reason settings rules w).0.downloads
              ≡ (remove_torrent env v.engine_id w).0.downloads))
unfolding evict_next
evict_next_rows env plan reason settings rules w =
    let less = evicted_before rules in
    let cs = candidates settings plan.routes in
    elim (evict_first_rows env reason (sort less cs) w) [
      | inl same ↦ inl same
      | inr (v, m, rows) ↦
          let (planned, open_) =
            In-of_In-candidates settings v plan.routes (In-of_In-sort less v cs m) in
          inr (v, planned, open_, rows)
    ]
