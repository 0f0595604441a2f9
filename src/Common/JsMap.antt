-- ===== src/Common/JsMap.antt =====
-- `new Map(entries)` with string keys: of entries with one key the last counts.
use Prim.Native.String.{String}
use mathlib.Core.Path.{◌≡◌, refl}
use mathlib.Core.Bool.{false}
use mathlib.Core.Option.{Option, none, some}
use mathlib.Core.List.{List, [], ◌∷◌, ◌++◌}
use native.Mathlib.Omega.{arith}
use text.Mathlib.Text.{◌==◌}
use text.Mathlib.TextPositions.{eq_refl}
use trax_os.Common.Tests.{if◌then◌else◌}

module _ {ℓ} {V : Type ℓ} where
  abbrev keep_later : Option V → Option V → Option V
  keep_later (some v) first = some v
  keep_later none first = first

  -- `new Map(entries).get(k)`
  abbrev pub get : List (String × V) → String → Option V
  get [] k = none
  get ((j, v) ∷ m) k = keep_later (get m k) (if j == k then some v else none)

  pub get-cons :
      (j k : String) (v w : V) (m : List (String × V))
      → get m k ≡ some w
      → get ((j, v) ∷ m) k ≡ some w
  get-cons j k v w m h = ground arith

  pub get-cons_self :
      (k : String) (v : V) (m : List (String × V)) → get m k ≡ none → get ((k, v) ∷ m) k ≡ some v
  get-cons_self k v m h = ground (arith, eq_refl k)

  -- `map.set(k, v)` and then `map.get(k)`, and of another key
  pub get-append_self :
      (k : String) (v : V) (m : List (String × V)) → get (m ++ (k, v) ∷ []) k ≡ some v
  get-append_self k v [] = ground (arith, eq_refl k)
  get-append_self k v ((j, w) ∷ m) = rw (get-append_self k v m) refl

  pub get-append_other :
      (j k : String) (v : V) (m : List (String × V))
      → (j == k) ≡ false
      → get (m ++ (j, v) ∷ []) k ≡ get m k
  get-append_other j k v [] h = ground arith
  get-append_other j k v ((i, w) ∷ m) h = rw (get-append_other j k v m h) refl
