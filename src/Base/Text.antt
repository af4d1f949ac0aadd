-- ===== src/Base/Text.antt =====
-- Texts whose only use is a comparison are native strings.
use Prim.Native.String.{String}
use mathlib.Core.Bool.{Bool, true, false}
use mathlib.Core.Option.{Option, none, some}
use mathlib.Core.List.{List, [], ◌∷◌}
pub use text.Mathlib.Text.{◌==◌ as str_eq, is_lt}
pub use text.Mathlib.TextEquality.{eq_iff}
pub use text.Mathlib.TextPositions.{eq_refl}
use filelist_streaming_servi.Base.Tests.{if◌then◌else◌}

-- A Go map with string keys, read: `none` where the key is missing.
module _ {ℓ} {V : Type ℓ} where
  unfoldable pub lookup : String → List (String × V) → Option V
  lookup k [] = none
  lookup k ((j, v) ∷ m) = if str_eq j k then some v else lookup k m

-- A set of strings, `map[string]bool`.
unfoldable pub elem : String → List String → Bool
elem k [] = false
elem k (j ∷ s) = if str_eq j k then true else elem k s
