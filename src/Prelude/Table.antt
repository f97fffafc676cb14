-- ===== src/Prelude/Table.antt =====
-- A Go map with string keys, as an association list that holds a key once. Its order stands for
-- the order in which one `range` loop happens to visit the map.
use Prim.Native.String.{String}
use mathlib.Core.Path.{◌≡◌, refl}
use mathlib.Core.Bool.{Bool, true, false}
use mathlib.Core.Option.{Option, none, some}
use mathlib.Core.List.{List, [], ◌∷◌, map}
use native.Mathlib.Omega.{arith}
use text.Mathlib.Text.{◌==◌}
use text.Mathlib.TextEquality.{eq_iff}
use openbao_plugin_secrets_o.Prelude.Tests.{if◌then◌else◌}

abbrev pub Table {ℓ} : Type ℓ → Type ℓ
Table V = List (String × V)

abbrev pub is_some {ℓ} : {A : Type ℓ} → Option A → Bool
is_some none = false
is_some (some a) = true

module _ {ℓ} {V : Type ℓ} where
  -- `v, ok := m[key]`
  unfoldable pub lookup : String → Table V → Option V
  lookup key [] = none
  lookup key (entry ∷ rest) =
      let found = lookup key rest in if entry.0 == key then some entry.1 else found

  -- `m[key] = v`
  unfoldable pub insert : String → V → Table V → Table V
  insert key v [] = (key, v) ∷ []
  insert key v (entry ∷ rest) =
      let more = insert key v rest in if entry.0 == key then (key, v) ∷ rest else entry ∷ more

  -- `delete(m, key)`
  unfoldable pub delete : String → Table V → Table V
  delete key [] = []
  delete key (entry ∷ rest) =
      let more = delete key rest in if entry.0 == key then more else entry ∷ more

  abbrev pub keys : Table V → List String
  keys = map (λ e. e.0)

  -- A write is seen at its own key and nowhere else.
  pub lookup-insert :
      (key other : String) (v : V) (m : Table V)
      → lookup other (insert key v m) ≡ (if key == other then some v else lookup other m)
  unfolding lookup insert
  lookup-insert key other v [] = refl
  lookup-insert key other v (entry ∷ rest) = ground (
    arith,
    lookup-insert key other v rest,
    eq_iff entry.0 other,
    eq_iff entry.0 key,
    eq_iff key other,
  )

  pub lookup-delete :
      (k j : String) (m : Table V) → lookup j (delete k m) ≡ (if k == j then none else lookup j m)
  unfolding lookup delete
  lookup-delete k j [] = ground arith
  lookup-delete k j ((i, w) ∷ m) =
      ground (arith, eq_iff k j, eq_iff i k, eq_iff i j, lookup-delete k j m)

  -- `_, ok := m[k]`
  abbrev pub has : String → Table V → Bool
  has k m = is_some (lookup k m)

  -- No key stands twice, as in a Go map.
  abbrev pub Distinct : Table V → Type ℓ
  Distinct [] = Unit
  Distinct ((k, v) ∷ m) = (lookup k m ≡ none) × Distinct m

  pub insert-Distinct : (k : String) (v : V) (m : Table V) → Distinct m → Distinct (insert k v m)
  unfolding insert lookup
  insert-Distinct k v [] d = (refl, tt)
  insert-Distinct k v ((j, w) ∷ m) d =
      ground (arith, eq_iff j k, eq_iff k j, lookup-insert k j v m, insert-Distinct k v m)

  pub delete-Distinct : (k : String) (m : Table V) → Distinct m → Distinct (delete k m)
  unfolding delete
  delete-Distinct k [] d = tt
  delete-Distinct k ((j, w) ∷ m) d =
      ground (arith, eq_iff j k, eq_iff k j, lookup-delete k j m, delete-Distinct k m)
