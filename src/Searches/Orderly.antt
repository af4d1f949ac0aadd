-- ===== src/Searches/Orderly.antt =====
-- internal/application/service.go: what holds of the jobs of tracker searches between two calls.
use filelist_streaming_servi.Base.{
  ◌≤◌, ◌≡◌, ◌≢◌, ◌⊎◌, ◌↔◌, inl, inr, sym, subst, Option, none, some, List, [], ◌∷◌, ◌++◌, String,
  Runes, In, map, length, arith, str_eq, eq_iff, Bool-cases,
}
use filelist_streaming_servi.World.{Job, JobState, queued, running}
use filelist_streaming_servi.Searches.{Searches, no_searches, queue_size, save_job, key_of}
use filelist_streaming_servi.Titles.Sets.{Distinct}

-- The job of the id is in the state.
abbrev pub Stands : (String → Option Job) → String → JobState → Type 0
Stands jobs k state = (job : Job) × (jobs k ≡ some job) × (job.state ≡ state)

pub Stands-save :
    (job : Job) (jobs : String → Option Job) (k : String) (state : JobState)
    → Stands (save_job job jobs) k state
      ↔ (((k ≡ job.id) × (job.state ≡ state)) ⊎ ((k ≢ job.id) × Stands jobs k state))
unfolding save_job
Stands-save job jobs k state = elim (Bool-cases (str_eq job.id k)) [
  | inl e ↦
      let same : k ≡ job.id = ground (arith, eq_iff job.id k) in
      (
        λ (found, at, is). inl (same, ground arith),
        λ h. elim h [
          | inl (_, is) ↦ (job, ground arith, is)
          | inr (other, _) ↦ absurd (other same)
        ],
      )
  | inr e ↦
      let differ : k ≢ job.id = λ s. ground (arith, eq_iff job.id k) in
      (
        λ (found, at, is). inr (differ, (found, ground arith, is)),
        λ h. elim h [
          | inl (same, _) ↦ absurd (differ same)
          | inr (_, (found, at, is)) ↦ (found, ground arith, is)
        ],
      )
]

abbrev pub held_list : Option Runes → List Runes
held_list none = []
held_list (some query) = query ∷ []

module _ (hash : Runes → String) where
  -- The keys of the queries that the worker has not begun, its own first.
  abbrev pub waiting : Searches → List String
  waiting s = map (key_of hash) (held_list s.held ++ s.queue)

  pub record IsOrderly (s : Searches) : Type 0 where
    pub queued_iff : (k : String) → Stands s.jobs k queued ↔ In k (waiting s)
    pub once : Distinct (waiting s)
    pub running_iff :
        (k : String)
        → Stands s.jobs k running ↔ (
            (query : Runes) × (job : Job) × (s.under_way ≡ some (query, job))
            × (key_of hash query ≡ k))
    pub own_job :
        (query : Runes) (job : Job)
        → s.under_way ≡ some (query, job)
        → (job.id ≡ key_of hash query) × (s.held ≡ none)
    pub named : (k : String) (job : Job) → s.jobs k ≡ some job → job.id ≡ k
    pub bounded : length s.queue ≤ queue_size

  pub no_searches-IsOrderly : IsOrderly no_searches
  no_searches-IsOrderly = record {
    queued_iff = λ k. (λ h. absurd (ground arith), λ m. absurd m);
    once = tt;
    running_iff = λ k. (λ h. absurd (ground arith), λ h. absurd (ground arith));
    own_job = λ q job e. absurd (ground arith);
    named = λ k job e. absurd (ground arith);
    bounded = omega arith;
  }

  pub named-save :
      (job : Job) (jobs : String → Option Job)
      → ((k : String) (found : Job) → jobs k ≡ some found → found.id ≡ k)
      → (k : String) (found : Job) → save_job job jobs k ≡ some found
      → found.id ≡ k
  unfolding save_job
  named-save job jobs h k found e = ground (arith, h k found, eq_iff job.id k)

  pub Stands-keep :
      (job : Job) (jobs : String → Option Job) (state : JobState)
      → job.state ≢ state
      → (Stands jobs job.id state → ⊥)
      → (k : String) → Stands (save_job job jobs) k state ↔ Stands jobs k state
  Stands-keep job jobs state n before k =
      let s = Stands-save job jobs k state in
      (
        λ h. elim (s.0 h) [ inl (_, is) ↦ absurd (n is) | inr (_, old) ↦ old ],
        λ old. s.1 (inr (λ e. before (subst (λ k. Stands jobs k state) e old), old)),
      )

  pub In-map_last :
      (k : String) (xs : List Runes) (q : Runes)
      → In k (map (key_of hash) (xs ++ (q ∷ [])))
        ↔ ((k ≡ key_of hash q) ⊎ In k (map (key_of hash) xs))
  In-map_last k [] q = (λ m. ground arith, λ m. ground arith)
  In-map_last k (x ∷ xs) q =
      (λ m. ground (arith, In-map_last k xs q), λ m. ground (arith, In-map_last k xs q))

  pub Distinct-map_last :
      (xs : List Runes) (q : Runes)
      → Distinct (map (key_of hash) xs)
      → (In (key_of hash q) (map (key_of hash) xs) → ⊥)
      → Distinct (map (key_of hash) (xs ++ (q ∷ [])))
  Distinct-map_last [] q d n = (λ m. m, tt)
  Distinct-map_last (x ∷ xs) q d n = (
    λ m. elim ((In-map_last (key_of hash x) xs q).0 m) [ inl e ↦ n (inl (sym e)) | inr i ↦ d.0 i ],
    Distinct-map_last xs q d.1 (λ i. n (inr i)),
  )
