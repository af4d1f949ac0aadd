-- ===== src/Settings.antt =====
-- internal/platform/config/config.go: the settings that the modelled code reads, and the eviction
-- rules. A size in GB, a float, is in thousandths of a GB.
use filelist_streaming_servi.Base.{
  ℕ, ◌*◌, ◌/◌, ◌^◌, Bool, true, false, List, [], ◌∷◌, Runes, runes_eq, codes, trim_space, to_lower,
  if◌then◌else◌, any,
}

pub record Settings : Type 0 where
  pub allocation_gb : ℕ
  pub reserve_gb : ℕ
  pub eviction_rules : List Runes
  pub protect_incomplete : Bool
  pub protect_leased : Bool
  pub protect_favorites : Bool
  pub protect_never_watched : Bool

-- `EvictionRuleAtoms`.
abbrev pub eviction_rule_atoms : List Runes
eviction_rule_atoms =
    codes "oldest-completed"
    ∷ codes "newest-completed"
    ∷ codes "least-recently-played"
    ∷ codes "most-recently-played"
    ∷ codes "watched-first"
    ∷ codes "never-watched-first"
    ∷ codes "largest"
    ∷ codes "smallest"
    ∷ []

unfoldable pub valid_eviction_rule : Runes → Bool
unfolding runes_eq trim_space to_lower
valid_eviction_rule rule =
    let atom = to_lower (trim_space rule) in any (λ a. runes_eq a atom) eviction_rule_atoms

abbrev is_empty : Runes → Bool
is_empty [] = true
is_empty _ = false

-- The loop of `NormalizeEvictionRules`.
normalized : List Runes → List Runes
unfolding trim_space to_lower
normalized [] = []
normalized (rule ∷ rules) =
    let atom = to_lower (trim_space rule) in
    if is_empty atom then normalized rules else atom ∷ normalized rules

abbrev or_default : List Runes → List Runes
or_default [] = codes "oldest-completed" ∷ []
or_default (rule ∷ rules) = rule ∷ rules

unfoldable pub normalize_eviction_rules : List Runes → List Runes
unfolding normalized
normalize_eviction_rules rules = or_default (normalized rules)

-- `gigabytesToBytes` of internal/application/retention.go.
unfoldable pub gigabytes_to_bytes : ℕ → ℕ
gigabytes_to_bytes gb = gb * 2 ^ 30 / 1000
