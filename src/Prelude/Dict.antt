-- ===== src/Prelude/Dict.antt =====
-- `HashMap<String, V>` and `DashMap<String, V>` as association lists. The order of the list stands
-- for the table's iteration order, which the program may not rely on: theorems range over all lists.
pub mod Table
use Prim.Native.String.{String}
use mathlib.Core.Path.{◌≡◌, refl}
use mathlib.Core.Bool.{Bool}
use mathlib.Core.List.{List, [], ◌∷◌, map}
use mathlib.Core.Option.{Option, none, some}
use mathlib.Core.Option
use native.Mathlib.Omega.{arith}
use text.Mathlib.Text.{◌==◌ as str_eq}
use text.Mathlib.TextEquality.{eq_iff}
use text.Mathlib.TextPositions.{eq_refl}
use cpcluster.Prelude.Tests.{if◌then◌else◌, is_some}
use cpcluster.Prelude.Lists.{any}

abbrev pub Dict {ℓ} : Type ℓ → Type ℓ
Dict V = List (String × V)

module _ {ℓ} {V : Type ℓ} where
  unfoldable pub get : String → Dict V → Option V
  get k [] = none
  get k ((j, v) ∷ m) = if str_eq j k then some v else get k m

  abbrev pub contains_key : String → Dict V → Bool
  contains_key k m = is_some (get k m)

  -- The old value is dropped.
  unfoldable pub insert : String → V → Dict V → Dict V
  insert k v [] = (k, v) ∷ []
  insert k v ((j, w) ∷ m) = if str_eq j k then (k, v) ∷ m else (j, w) ∷ insert k v m

  unfoldable pub remove : String → Dict V → Dict V
  remove k [] = []
  remove k ((j, w) ∷ m) = let rest = remove k m in if str_eq j k then rest else (j, w) ∷ rest

  -- `entry(k).and_modify(f)`: nothing happens where the key is missing.
  unfoldable pub and_modify : String → (V → V) → Dict V → Dict V
  and_modify k f [] = []
  and_modify k f ((j, w) ∷ m) = if str_eq j k then (j, f w) ∷ m else (j, w) ∷ and_modify k f m

  -- `entry(k).or_insert(v)`: an entry that is there stays.
  unfoldable pub or_insert : String → V → Dict V → Dict V
  or_insert k v m = if contains_key k m then m else insert k v m

  abbrev pub keys : Dict V → List String
  keys = map (λ e. e.0)

  -- `values().any(p)`
  abbrev pub any_value : (V → Bool) → Dict V → Bool
  any_value p = any (λ e. p e.1)

  pub get-insert :
      (k j : String) (v : V) (m : Dict V)
      → get j (insert k v m) ≡ (if str_eq k j then some v else get j m)
  unfolding get insert
  get-insert k j v [] = refl
  get-insert k j v ((i, w) ∷ m) =
      ground (arith, eq_iff k j, eq_iff i k, eq_iff i j, get-insert k j v m)

  pub get-remove :
      (k j : String) (m : Dict V) → get j (remove k m) ≡ (if str_eq k j then none else get j m)
  unfolding get remove
  get-remove k j [] = ground arith
  get-remove k j ((i, w) ∷ m) = ground (arith, eq_iff k j, eq_iff i k, eq_iff i j, get-remove k j m)

  pub get-and_modify :
      (k j : String) (f : V → V) (m : Dict V)
      → get j (and_modify k f m) ≡ (if str_eq k j then Option.map f (get j m) else get j m)
  unfolding get and_modify
  get-and_modify k j f [] = ground arith
  get-and_modify k j f ((i, w) ∷ m) =
      ground (arith, eq_iff k j, eq_iff i k, eq_iff i j, get-and_modify k j f m)

  pub get-and_modify_self :
      (k : String) (f : V → V) (m : Dict V) (v : V)
      → get k m ≡ some v
      → get k (and_modify k f m) ≡ some (f v)
  get-and_modify_self k f m v h = ground (arith, eq_refl k, get-and_modify k k f m)

  pub get-or_insert :
      (k j : String) (v : V) (m : Dict V)
      → get j (or_insert k v m)
        ≡ (if contains_key j m then get j m else if str_eq k j then some v else none)
  unfolding or_insert
  get-or_insert k j v m = ground (arith, eq_iff k j, get-insert k j v m)

pub ruleset dict_laws = (get-insert, get-remove, get-and_modify, get-or_insert)
