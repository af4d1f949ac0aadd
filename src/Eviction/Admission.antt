-- ===== src/Eviction/Admission.antt =====
-- internal/application/service.go: the answers of `ensureAllocationRoom`.
use filelist_streaming_servi.Base.{◌^◌, ◌⊎◌, List, [], ◌∷◌, ℕ, ◌+◌, ◌<◌, ◌≤◌, ◌≡◌, true, ok, All}
use filelist_streaming_servi.Settings.{Settings, gigabytes_to_bytes}
use filelist_streaming_servi.Retention.{retention_protected, Route}
use filelist_streaming_servi.World.{World, Env}
use filelist_streaming_servi.Survey.{total_bytes, Plan, retention_survey}
use filelist_streaming_servi.Eviction.{Answer, admitted, allocation_error, refused}
use filelist_streaming_servi.Eviction.Termination.{Refuses}

-- What the surveyed torrents take, without wrap-around.
abbrev pub exact_total : List Route → ℕ
exact_total [] = 0
exact_total (r ∷ rs) = r.status.total_bytes + exact_total rs

-- The surveyed torrents and the download take more than an `int64` counts.
abbrev pub Overflows : ℕ → Plan → Type 0
Overflows incoming plan = 2 ^ 63 ≤ exact_total plan.routes + incoming

-- What each answer promises of the world left behind.
abbrev pub AnswerHolds : Env → Settings → ℕ → Answer → World → Type 0
AnswerHolds env settings incoming admitted w =
    (plan : Plan) × (retention_survey env w ≡ ok plan)
    × ((exact_total plan.routes + incoming ≤ gigabytes_to_bytes settings.allocation_gb)
        ⊎ Overflows incoming plan)
AnswerHolds env settings incoming (allocation_error required stored capacity) w =
    (plan : Plan) × (retention_survey env w ≡ ok plan)
    × (required ≡ incoming)
    × (capacity ≡ gigabytes_to_bytes settings.allocation_gb)
    × All (λ r. retention_protected r settings ≡ true) plan.routes
    × (((stored ≡ exact_total plan.routes) × (capacity < exact_total plan.routes + incoming))
        ⊎ Overflows incoming plan)
AnswerHolds env settings incoming (refused e) w = Refuses env e
