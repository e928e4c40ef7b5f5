-- ===== src/Prelude/Maps.antt =====
-- Go's maps with text keys, as association lists, and sets of texts as lists.
use mathlib.Core.Path.{◌≡◌, refl}
use mathlib.Core.Logic.{◌⊎◌}
use mathlib.Core.Bool.{true, false, ◌||◌}
use mathlib.Core.Option.{Option, none, some}
use mathlib.Core.List.{List, [], ◌∷◌, ◌++◌}
use native.Mathlib.Omega.{arith}
use Prim.Native.String.{String}
use text.Mathlib.Text.{◌==◌}
use text.Mathlib.TextEquality.{eq_iff}
use intelligent_workflows.Prelude.Tests.{if◌then◌else◌}
use intelligent_workflows.Prelude.Text.{member}

module _ {ℓ} {V : Type ℓ} where
  -- `m[key]`; the second result is whether there is a value.
  unfoldable pub lookup : String → List (String × V) → Option V
  lookup key [] = none
  lookup key (entry ∷ rest) = if entry.0 == key then some entry.1 else lookup key rest

  -- `m[key] = value`, in the place of the entry that the key has.
  unfoldable pub insert : String → V → List (String × V) → List (String × V)
  insert key value [] = (key, value) ∷ []
  insert key value (entry ∷ rest) =
      if entry.0 == key then (key, value) ∷ rest else entry ∷ insert key value rest

  -- `delete(m, key)`
  unfoldable pub remove_key : String → List (String × V) → List (String × V)
  remove_key key [] = []
  remove_key key (entry ∷ rest) =
      if entry.0 == key then remove_key key rest else entry ∷ remove_key key rest

  pub lookup-insert :
      (key other : String) (value : V) (entries : List (String × V))
      → lookup other (insert key value entries)
        ≡ (if key == other then some value else lookup other entries)
  unfolding lookup insert
  lookup-insert key other value [] = refl
  lookup-insert key other value (entry ∷ rest) = ground (
    arith,
    lookup-insert key other value rest,
    eq_iff entry.0 other,
    eq_iff entry.0 key,
    eq_iff key other,
  )

-- `delete` from a set.
unfoldable pub remove : String → List String → List String
remove k [] = []
remove k (x ∷ xs) = if x == k then remove k xs else x ∷ remove k xs

pub remove-fresh : (k : String) (xs : List String) → member k xs ≡ false → remove k xs ≡ xs
unfolding remove
remove-fresh k [] h = refl
remove-fresh k (x ∷ xs) h = ground (arith, eq_iff k x, eq_iff x k, remove-fresh k xs)

pub member-cons :
    (a x : String) (xs : List String) → member a (x ∷ xs) ≡ true → (a ≡ x) ⊎ (member a xs ≡ true)
member-cons a x xs h = ground (arith, eq_iff a x)

pub member-append :
    (a : String) (xs ys : List String) → member a (xs ++ ys) ≡ (member a xs || member a ys)
member-append a [] ys = refl
member-append a (x ∷ xs) ys = ground (arith, member-append a xs ys)
