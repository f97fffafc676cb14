-- ===== src/Fake/Serves.antt =====
-- The fake client as a client that answers for a vault, where no error is scripted.
use openbao_plugin_secrets_o.Prelude.{
  ℕ, ◌+◌, ◌<◌, String, Option, none, some, List, [], ◌∷◌, ◌++◌, ◌≡◌, refl, sym, ◌∙◌, ap, arith,
  Option-cases, inl, inr,
}
use mathlib.Core.List.{append-nil, append_assoc}
use openbao_plugin_secrets_o.Prelude.Table.{Table, lookup}
use openbao_plugin_secrets_o.Onepassword.{Item, SdkError, ItemResult, ok}
use openbao_plugin_secrets_o.Client.{chunk_ids}
use openbao_plugin_secrets_o.Client.Batches.{concat, chunk_ids-batches}
use openbao_plugin_secrets_o.Cycle.Mirror.{answers, fetch_of, result_ids-answers, Serves}
use openbao_plugin_secrets_o.Cycle.Sync.{result_ids}
use openbao_plugin_secrets_o.Fake.{
  FakeOpClient, list_or_empty, fetch_body, fetch_chunk, fetch_chunks, chunk_size, list_items,
  get_items, fake_client,
}
use openbao_plugin_secrets_o.Fake.View.{listing, stored}

fetch_body-fetch_of : (id : String) (found : Option Item) → fetch_body id found ≡ fetch_of id found
fetch_body-fetch_of id none = refl
fetch_body-fetch_of id (some item) = refl

fetch_chunk-answers :
    (bodies : Table Item) (ids : List String)
    → fetch_chunk bodies ids ≡ answers (λ id. lookup id bodies) ids
unfolding fetch_chunk
fetch_chunk-answers bodies [] = refl
fetch_chunk-answers bodies (id ∷ ids) =
    rw (fetch_body-fetch_of id (lookup id bodies), fetch_chunk-answers bodies ids)

answers-append :
    (bodies : String → Option Item) (xs ys : List String)
    → answers bodies (xs ++ ys) ≡ answers bodies xs ++ answers bodies ys
answers-append bodies [] ys = refl
answers-append bodies (x ∷ xs) ys = rw (answers-append bodies xs ys)

fetch_chunks-answers :
    (bodies : Table Item) (chunks : List (List String)) (f : FakeOpClient)
    → let results = answers (λ id. lookup id bodies) in
      (done : List String)
      → (fetch_chunks none bodies chunks (results done) f).0 ≡ ok (results (done ++ concat chunks))
unfolding fetch_chunks
fetch_chunks-answers bodies [] f done = rw append-nil
fetch_chunks-answers bodies (chunk ∷ chunks) f done =
    let results = answers (λ id. lookup id bodies) in
    let f' = record f { get_items_calls = f.get_items_calls + 1 } in
    let longer : results done ++ fetch_chunk bodies chunk ≡ results (done ++ chunk) =
      rw (fetch_chunk-answers bodies chunk)
        (sym (answers-append (λ id. lookup id bodies) done chunk)) in
    ap (λ rs. (fetch_chunks none bodies chunks rs f').0) longer
    ∙ fetch_chunks-answers bodies chunks f' (done ++ chunk)
    ∙ ap (λ ids. ok (results ids)) (append_assoc done chunk (concat chunks))

chunk_size_pos : (f : FakeOpClient) → 0 < chunk_size f
chunk_size_pos f = ground arith

list_items-fine :
    (f : FakeOpClient) (vault_id : String)
    → lookup vault_id f.items_err ≡ none
    → list_items vault_id f
      ≡ (ok (listing f vault_id), record f { list_items_calls = f.list_items_calls + 1 })
unfolding list_items
list_items-fine f vault_id fine = ground arith

get_items-fine :
    (f : FakeOpClient) (vault_id : String) (ids : List String)
    → lookup vault_id f.get_items_err ≡ none
    → (get_items vault_id ids f).0 ≡ ok (answers (stored f vault_id) ids)
unfolding get_items
get_items-fine f vault_id ids fine = rw fine (
    fetch_chunks-answers (list_or_empty (lookup vault_id f.item_bodies))
      (chunk_ids ids (chunk_size f)) f []
    ∙ rw ((chunk_ids-batches ids (chunk_size f) (chunk_size_pos f)).0))

pub fake-Serves :
    (name : ℕ → String) (f : FakeOpClient) (vault_id : String)
    → lookup vault_id f.items_err ≡ none
    → lookup vault_id f.get_items_err ≡ none
    → Serves (fake_client name) vault_id f (listing f vault_id) (stored f vault_id)
unfolding fake_client
fake-Serves name f vault_id lists gets = record {
  lists = rw (list_items-fine f vault_id lists);
  gets = λ ids.
      rw (list_items-fine f vault_id lists)
        (get_items-fine (record f { list_items_calls = f.list_items_calls + 1 }) vault_id ids gets);
}

fetch_chunks-failing :
    (e : SdkError) (bodies : Table Item) (chunks : List (List String)) (f : FakeOpClient)
    (results : List ItemResult)
    → (fetch_chunks (some e) bodies chunks [] f).0 ≡ ok results
    → result_ids results ≡ concat chunks
unfolding fetch_chunks
fetch_chunks-failing e bodies [] f results h = ground arith
fetch_chunks-failing e bodies (chunk ∷ chunks) f results h = absurd (ground arith)

-- What the fake client answers to a GetItems is for the IDs it was asked for, in order.
pub fake-answers :
    (name : ℕ → String) (vault_id : String) (ids : List String) (f : FakeOpClient)
    (results : List ItemResult)
    → ((fake_client name).get_items vault_id ids f).0 ≡ ok results
    → result_ids results ≡ ids
unfolding fake_client get_items
fake-answers name vault_id ids f results h = elim (Option-cases (lookup vault_id f.get_items_err)) [
  | inl fine ↦
      let same : results ≡ answers (stored f vault_id) ids =
        ground (arith, h, get_items-fine f vault_id ids fine) in
      ap result_ids same ∙ result_ids-answers (stored f vault_id) ids
  | inr (e, failing) ↦
      let chunks = chunk_ids ids (chunk_size f) in
      fetch_chunks-failing e (list_or_empty (lookup vault_id f.item_bodies)) chunks f results
        (rw (← failing) h)
      ∙ (chunk_ids-batches ids (chunk_size f) (chunk_size_pos f)).0
]
