-- ===== src/Prelude/Unordered.antt =====
-- A map without the order of its `range`: two tables with the same entries have the same keys, once
-- these are sorted.
use Prim.Native.String.{String}
use mathlib.Core.Logic.{inl, inr}
use mathlib.Core.Path.{◌≡◌, refl, sym, ap, ◌∙◌}
use mathlib.Core.Option.{none, some}
use mathlib.Core.List.{[], ◌∷◌}
use native.Mathlib.Omega.{arith}
use text.Mathlib.Text.{◌==◌}
use text.Mathlib.TextEquality.{eq_iff}
use openbao_plugin_secrets_o.Prelude.Tests.{Bool-cases}
use openbao_plugin_secrets_o.Prelude.Sort.{insert_sorted, sort_strings}
use openbao_plugin_secrets_o.Prelude.Order.{insert_sorted_comm}
use openbao_plugin_secrets_o.Prelude.Table.{
  Table, lookup, delete, keys, lookup-delete, Distinct, delete-Distinct,
}

module _ {ℓ} {V : Type ℓ} where
  -- The same entries, in whatever order.
  pub record SameEntries (m m' : Table V) : Type ℓ where
    pub left : Distinct m
    pub right : Distinct m'
    pub entries : (k : String) → lookup k m ≡ lookup k m'

  delete-missing : (k : String) (m : Table V) → lookup k m ≡ none → delete k m ≡ m
  unfolding lookup delete
  delete-missing k [] h = refl
  delete-missing k ((j, w) ∷ m) h = ground (arith, delete-missing k m)

  sort_strings-delete :
      (k : String) (v : V) (m : Table V)
      → Distinct m
      → lookup k m ≡ some v
      → sort_strings (keys m) ≡ insert_sorted k (sort_strings (keys (delete k m)))
  unfolding lookup delete sort_strings
  sort_strings-delete k v [] d h = absurd (ground arith)
  sort_strings-delete k v ((j, w) ∷ m) d h = elim (Bool-cases (j == k)) [
    | inl same ↦
        let eq = (eq_iff j k).0 same in
        rw (same, delete-missing k m (ap (λ i. lookup i m) (sym eq) ∙ d.0), eq) refl
    | inr other ↦
        rw (other, sort_strings-delete k v m d.1 (ground (arith, other)))
          (insert_sorted_comm j k (sort_strings (keys (delete k m))))
  ]

  empty_of_lookups : (m : Table V) → ((k : String) → lookup k m ≡ none) → m ≡ []
  unfolding lookup
  empty_of_lookups [] h = refl
  empty_of_lookups ((j, w) ∷ m) h = absurd (ground (arith, h j, eq_iff j j))

  pub sort_keys-same :
      (m m' : Table V) → SameEntries m m' → sort_strings (keys m) ≡ sort_strings (keys m')
  unfolding lookup sort_strings
  sort_keys-same [] m' same = rw (empty_of_lookups m' (λ k. sym (same.entries k))) refl
  sort_keys-same ((j, w) ∷ m) m' same =
      let found : lookup j m' ≡ some w = sym (same.entries j) ∙ ground (arith, eq_iff j j) in
      let rest = sort_keys-same m (delete j m') record {
        left = same.left.1;
        right = delete-Distinct j m' same.right;
        entries =
            λ k. ground (arith, same.entries k, lookup-delete j k m', eq_iff j k, same.left.0);
      } in
      rw (rest, sort_strings-delete j w m' same.right found) refl
