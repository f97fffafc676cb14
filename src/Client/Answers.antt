-- ===== src/Client/Answers.antt =====
-- What `GetItems` answers: one result for each requested ID, in the order asked.
use openbao_plugin_secrets_o.Prelude.{
  ◌≡◌, refl, ap, ◌∙◌, String, List, [], ◌∷◌, ◌++◌, map, length, inl, inr, arith,
}
use mathlib.Core.List.{append-nil, append_assoc, map-append}
use openbao_plugin_secrets_o.Onepassword.{Result, ok, Result-cases, ItemResult}
use openbao_plugin_secrets_o.Client.Batches.{concat, chunk_ids-batches}
use openbao_plugin_secrets_o.Client.{
  max_get_all_ids, chunk_ids, Sdk, IndividualResponse, correlate, get_batches, get_items,
  sdk_client,
}

abbrev pub result_ids : List ItemResult → List String
result_ids = map (λ r. r.id)

correlate-ids :
    (ids : List String) (rs : List IndividualResponse)
    → length rs ≡ length ids
    → result_ids (correlate ids rs) ≡ ids
unfolding correlate
correlate-ids [] [] h = refl
correlate-ids [] (r ∷ rs) h = refl
correlate-ids (id ∷ ids) [] h = absurd (omega arith)
correlate-ids (id ∷ ids) (r ∷ rs) h = ap (◌∷◌ id) (correlate-ids ids rs (omega arith))

module _ {W : Type 0} (sdk : Sdk W) (vault_id : String) where
  get_batches-ids :
      (chunks : List (List String)) (results : List ItemResult) (w : W) {out : List ItemResult}
      → (get_batches sdk vault_id chunks results w).0 ≡ ok out
      → result_ids out ≡ result_ids results ++ concat chunks
  unfolding get_batches
  get_batches-ids [] results w {out} h = ground (arith, append-nil (result_ids results))
  get_batches-ids (chunk ∷ chunks) results w {out} h = elim (Result-cases resp.0) [
    | inl (e, bad) ↦ ground arith
    | inr (rs, good) ↦ ground (
      arith,
      get_batches-ids chunks (results ++ correlate chunk rs) resp.1 {out = out},
      correlate-ids chunk rs,
      map-append {A = ItemResult} (λ (r : ItemResult). r.id) results (correlate chunk rs),
      append_assoc (result_ids results) (result_ids (correlate chunk rs)) (concat chunks),
    )
  ]
    where
      resp : Result (List IndividualResponse) × W
      resp = sdk.items_get_all vault_id chunk w

  -- A successful `GetItems` has exactly one result for each ID asked for, in the order asked.
  pub get_items-ids :
      (ids : List String) (w : W) {out : List ItemResult}
      → ((sdk_client sdk).get_items vault_id ids w).0 ≡ ok out
      → result_ids out ≡ ids
  unfolding sdk_client get_items
  get_items-ids ids w {out} h =
      get_batches-ids (chunk_ids ids max_get_all_ids) [] w h
      ∙ (chunk_ids-batches ids max_get_all_ids (omega arith)).0
