-- ===== src/Common/Bucket.antt =====
-- An object store over an unknown state, as far as the service uses one, and what it promises.
use Prim.Native.String.{String}
use mathlib.Core.Path.{◌≡◌}
use mathlib.Core.Logic.{◌≢◌, ◌↔◌}
use mathlib.Core.Bool.{Bool, true, false, ◌||◌}
use mathlib.Core.List.{List, [], ◌∷◌}
use mathlib.Core.Option.{Option, none, some}
use text.Mathlib.Text.{◌==◌ as str_eq, starts_with}
use data_service.Common.Tests.{if◌then◌else◌}

pub record Bucket (V : Type 0) : Type 1 where
  pub State : Type 0
  pub get : State → String → Option V
  pub put : State → String → V → State
  pub delete : State → String → State
  pub keys : State → String → List String

-- `k in ks`
abbrev pub has : String → List String → Bool
has k [] = false
has k (j ∷ ks) = str_eq j k || has k ks

pub record IsLawful {V : Type 0} (B : Bucket V) : Type 0 where
  pub get-put :
      (s : B.State) (k j : String) (v : V)
      → B.get (B.put s k v) j ≡ (if str_eq k j then some v else B.get s j)
  pub get-delete :
      (s : B.State) (k j : String)
      → B.get (B.delete s k) j ≡ (if str_eq k j then none else B.get s j)
  pub has-keys :
      (s : B.State) (prefix k : String)
      → (has k (B.keys s prefix) ≡ true) ↔ ((starts_with k prefix ≡ true) × (B.get s k ≢ none))
