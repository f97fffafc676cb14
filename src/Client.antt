-- ===== src/Client.antt =====
-- backend/opclient.go: the seam between the engine and 1Password. `W` is the state of the other
-- side, which a call may read and change; `Sdk` holds the SDK's own calls. In `chunkIDs` each
-- round takes an ID at least, so as many rounds as there are IDs are enough; at size 0 the source
-- would not return.
pub mod Batches
pub mod Answers
mod Tests
use openbao_plugin_secrets_o.Prelude.{
  ℕ, zero, suc, String, Option, none, some, List, [], ◌∷◌, ◌++◌, map, length, take, drop, ltb, ◌==◌,
  if◌then◌else◌, false,
}
use openbao_plugin_secrets_o.Prelude.Text.{codes, decimal}
use openbao_plugin_secrets_o.Onepassword.{
  VaultOverview, ItemOverview, Item, ItemCreateParams, SdkError, Result, ok, err, EntryError,
  get_all_error, empty_get_all_response, Fetch, fetched, failed, ItemResult,
}

abbrev pub max_get_all_ids : ℕ
max_get_all_ids = 50

-- The size of the next batch: `n := size`, then `len(ids)` if that is smaller.
unfoldable pub batch_size : ℕ → ℕ → ℕ
batch_size count size = if ltb count size then count else size

module _ {ℓ} {A : Type ℓ} where
  -- The `for len(ids) > 0` loop.
  unfoldable pub chunk_loop : ℕ → List A → ℕ → List (List A)
  chunk_loop zero ids size = []
  chunk_loop (suc fuel) [] size = []
  chunk_loop (suc fuel) (x ∷ xs) size =
      let n = batch_size (length (x ∷ xs)) size in
      take n (x ∷ xs) ∷ chunk_loop fuel (drop n (x ∷ xs)) size

  unfoldable pub chunk_ids : List A → ℕ → List (List A)
  unfolding chunk_loop batch_size
  chunk_ids ids size = chunk_loop (length ids) ids size

-- The interface that the engine calls.
pub record OpClient (W : Type 0) : Type 0 where
  pub list_vaults : W → Result (List VaultOverview) × W
  pub list_items : String → W → Result (List ItemOverview) × W
  pub get_items : String → List String → W → Result (List ItemResult) × W
  pub create_item : ItemCreateParams → W → Result Item × W
  pub put_item : Item → W → Result Item × W
  pub delete_item : String → String → W → Result (Unit {0}) × W

-- One entry of the SDK's ItemsGetAllResponse: it carries no ID of its own.
pub record IndividualResponse : Type 0 where
  pub content : Option Item
  pub error : Option String

pub record Sdk (W : Type 0) : Type 0 where
  pub vaults_list : W → Result (List VaultOverview) × W
  pub items_list : String → W → Result (List ItemOverview) × W
  pub items_get_all : String → List String → W → Result (List IndividualResponse) × W
  pub items_create : ItemCreateParams → W → Result Item × W
  pub items_put : Item → W → Result Item × W
  pub items_delete : String → String → W → Result (Unit {0}) × W

-- The `switch` on one entry.
entry_fetch : String → Option Item → Option String → Fetch
entry_fetch id (some item) _ = fetched item
entry_fetch id none (some e) = failed (get_all_error id e)
entry_fetch id none none = failed empty_get_all_response

-- The loop over one answer: entry i belongs to the i-th ID of the batch.
pub correlate : List String → List IndividualResponse → List ItemResult
unfolding entry_fetch
correlate (id ∷ ids) (r ∷ rs) =
    record { id = id; fetch = entry_fetch id r.content r.error } ∷ correlate ids rs
correlate _ _ = []

count_mismatch : ℕ → ℕ → SdkError
count_mismatch got wanted = record {
  rate_limited = false;
  message =
      codes "1password: GetAll returned "
      ++ decimal got
      ++ codes " responses for "
      ++ decimal wanted
      ++ codes " requested ids";
}

module _ {W : Type 0} (sdk : Sdk W) where
  -- The loop over the batches; `results` is what the batches before gave.
  pub get_batches : String → List (List String) → List ItemResult → W → Result (List ItemResult) × W
  get_batches vault_id [] results w = (ok results, w)
  get_batches vault_id (chunk ∷ chunks) results w =
      let (resp, w') = sdk.items_get_all vault_id chunk w in
      elim resp [
        | err e ↦ (err e, w')
        | ok rs ↦
            let rest = get_batches vault_id chunks (results ++ correlate chunk rs) w' in
            if length rs == length chunk
            then rest
            else (err (count_mismatch (length rs) (length chunk)), w')
      ]

  pub get_items : String → List String → W → Result (List ItemResult) × W
  unfolding get_batches
  get_items vault_id ids w = get_batches vault_id (chunk_ids ids max_get_all_ids) [] w

  pub sdk_client : OpClient W
  unfolding get_items
  sdk_client = record {
    list_vaults = sdk.vaults_list;
    list_items = sdk.items_list;
    get_items = get_items;
    create_item = sdk.items_create;
    put_item = sdk.items_put;
    delete_item = sdk.items_delete;
  }
