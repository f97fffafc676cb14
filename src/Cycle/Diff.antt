-- ===== src/Cycle/Diff.antt =====
-- What the diff of a cycle finds.
use openbao_plugin_secrets_o.Prelude.{
  String, Bool, false, not, ◌&&◌, ◌||◌, none, some, List, [], ◌∷◌, ◌≡◌, refl, str_eq, eq_iff, arith,
}
use openbao_plugin_secrets_o.Prelude.Table.{Table, lookup, has, Distinct}
use openbao_plugin_secrets_o.Onepassword.{ItemOverview}
use openbao_plugin_secrets_o.Cycle.{is_changed, to_fetch, to_remove}

-- Whether an ID is in a list of IDs.
unfoldable pub is_in : String → List String → Bool
is_in id [] = false
is_in id (x ∷ xs) = str_eq x id || is_in id xs

-- An ID is to be fetched exactly if it is listed and is new or changed.
pub is_in-to_fetch :
    (known m : Table ItemOverview) (id : String)
    → Distinct m
    → is_in id (to_fetch known m)
      ≡ elim (lookup id m) [ none ↦ false | some ov ↦ is_changed (lookup id known) ov ]
unfolding to_fetch is_in lookup
is_in-to_fetch known [] id d = refl
is_in-to_fetch known ((j, ov) ∷ m) id d = ground (arith, eq_iff j id, is_in-to_fetch known m id d.1)

-- An ID is to be removed exactly if it is known and not listed.
pub is_in-to_remove :
    (known listed : Table ItemOverview) (id : String)
    → is_in id (to_remove known listed) ≡ (has id known && not (has id listed))
unfolding to_remove is_in lookup
is_in-to_remove [] listed id = refl
is_in-to_remove ((j, ov) ∷ m) listed id = ground (arith, eq_iff j id, is_in-to_remove m listed id)
