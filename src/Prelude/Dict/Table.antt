-- ===== src/Prelude/Dict/Table.antt =====
-- Tables whose keys are distinct, and searches in them.
use cpcluster.Prelude.Lists.{find, length}
use cpcluster.Prelude.Dict.{
  Dict, get, insert, remove, and_modify, or_insert, get-insert, get-remove, get-and_modify,
}
use Prim.Native.Nat.{◌≤◌, ◌<◌}
use Prim.Native.String.{String}
use mathlib.Core.Path.{◌≡◌, refl}
use mathlib.Core.Bool.{Bool, true, false}
use mathlib.Core.List.{[], ◌∷◌}
use mathlib.Core.Option.{none, some}
use native.Mathlib.Omega.{arith}
use text.Mathlib.TextEquality.{eq_iff}

module _ {ℓ} {V : Type ℓ} where
  -- No key stands twice.
  abbrev pub IsTable : Dict V → Type ℓ
  IsTable [] = Unit
  IsTable ((k, v) ∷ m) = (get k m ≡ none) × IsTable m

  pub insert-IsTable : (k : String) (v : V) (m : Dict V) → IsTable m → IsTable (insert k v m)
  unfolding insert get
  insert-IsTable k v [] t = (refl, tt)
  insert-IsTable k v ((j, w) ∷ m) t =
      ground (arith, eq_iff j k, get-insert k j v m, insert-IsTable k v m t.1, eq_iff k j)

  pub remove-IsTable : (k : String) (m : Dict V) → IsTable m → IsTable (remove k m)
  unfolding remove
  remove-IsTable k [] t = tt
  remove-IsTable k ((j, w) ∷ m) t = ground (arith, get-remove k j m, remove-IsTable k m t.1)

  pub and_modify-IsTable :
      (k : String) (f : V → V) (m : Dict V) → IsTable m → IsTable (and_modify k f m)
  unfolding and_modify
  and_modify-IsTable k f [] t = tt
  and_modify-IsTable k f ((j, w) ∷ m) t =
      ground (arith, get-and_modify k j f m, and_modify-IsTable k f m t.1)

  pub or_insert-IsTable : (k : String) (v : V) (m : Dict V) → IsTable m → IsTable (or_insert k v m)
  unfolding or_insert
  or_insert-IsTable k v m t = ground (arith, insert-IsTable k v m t)

  pub length-remove-le : (k : String) (m : Dict V) → length (remove k m) ≤ length m
  unfolding remove
  length-remove-le k [] = omega arith
  length-remove-le k ((j, w) ∷ m) = ground (arith, length-remove-le k m)

  module _ (p : String × V → Bool) where
    pub find-holds : (m : Dict V) (e : String × V) → find p m ≡ some e → p e ≡ true
    find-holds [] e h = ground arith
    find-holds (x ∷ m) e h = ground (arith, find-holds m e)

    -- What a search finds is an entry, so to remove it makes the table shorter.
    pub length-remove_found :
        (m : Dict V) (k : String) (v : V) → find p m ≡ some (k, v) → length (remove k m) < length m
    unfolding remove
    length-remove_found [] k v h = ground arith
    length-remove_found ((j, w) ∷ m) k v h =
        ground (arith, eq_iff j k, length-remove_found m k v, length-remove-le k m)

    pub get_found :
        (m : Dict V) (k : String) (v : V) → IsTable m → find p m ≡ some (k, v) → get k m ≡ some v
    unfolding get
    get_found [] k v t h = ground arith
    get_found ((j, w) ∷ m) k v t h = ground (arith, eq_iff j k, get_found m k v t.1)

    -- A search that finds nothing has tried every entry.
    pub find-none_get :
        (m : Dict V) (k : String) (v : V) → find p m ≡ none → get k m ≡ some v → p (k, v) ≡ false
    unfolding get
    find-none_get [] k v h e = ground arith
    find-none_get ((j, w) ∷ m) k v h e = ground (arith, eq_iff j k, find-none_get m k v)
