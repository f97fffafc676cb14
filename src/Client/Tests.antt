-- ===== src/Client/Tests.antt =====
-- The batches and the answers of the client, on small lists.
use openbao_plugin_secrets_o.Prelude.{
  ◌+◌, ◌-◌, ◌/◌, ◌≡◌, refl, arith, String, List, [], ◌∷◌, length, none, some, Bool,
}
use openbao_plugin_secrets_o.Onepassword.{Result, ok, ItemResult}
use openbao_plugin_secrets_o.Client.{
  chunk_ids, IndividualResponse, Sdk, get_items, get_batches, entry_fetch, correlate, sdk_client,
}
use openbao_plugin_secrets_o.Client.Batches.{concat, Fits, chunk_ids-batches}
use openbao_plugin_secrets_o.Client.Answers.{result_ids, get_items-ids}

abbrev five : List String
five = "a" ∷ "b" ∷ "c" ∷ "d" ∷ "e" ∷ []

five_in_batches :
    (concat (chunk_ids five 2) ≡ five)
    × Fits 2 (chunk_ids five 2)
    × (length (chunk_ids five 2) ≡ (length five + 2 - 1) / 2)
five_in_batches = chunk_ids-batches five 2 (omega arith)

chunks_of_five : chunk_ids five 2 ≡ ("a" ∷ "b" ∷ []) ∷ ("c" ∷ "d" ∷ []) ∷ ("e" ∷ []) ∷ []
unfolding chunk_ids
chunks_of_five = refl

-- A server that has no item: each entry of its answer is an error.
abbrev all_missing : List String → List IndividualResponse
all_missing [] = []
all_missing (id ∷ ids) = record { content = none; error = some "itemNotFound" } ∷ all_missing ids

empty_sdk : Sdk (Unit {0})
empty_sdk = record {
  vaults_list = λ w. (ok [], w);
  items_list = λ vault_id w. (ok [], w);
  items_get_all = λ vault_id ids w. (ok (all_missing ids), w);
  items_create = λ params w. (Result.err (record { rate_limited = Bool.false; message = [] }), w);
  items_put = λ item w. (ok item, w);
  items_delete = λ vault_id id w. (ok tt, w);
}

abbrev answers : Result (List ItemResult)
answers = (get_items empty_sdk "v" five tt).0

abbrev or_none : Result (List ItemResult) → List ItemResult
or_none (ok rs) = rs
or_none (Result.err e) = []

get_items-ids_example : result_ids (or_none answers) ≡ five
get_items-ids_example =
    get_items-ids empty_sdk "v" five tt {out = or_none answers}
      (unfold sdk_client get_items get_batches chunk_ids correlate entry_fetch empty_sdk in refl)
