-- ===== src/Onepassword.antt =====
-- The 1Password values that the engine reads and writes: the fields that backend/*.go uses of
-- the SDK's types, an SDK error, and one entry of a GetItems answer (backend/opclient.go).
use openbao_plugin_secrets_o.Prelude.{ℕ, String, Bool, Option, List, ◌≡◌, refl, ◌⊎◌, inl, inr}

pub data ItemState : Type 0 where
  active archived : ItemState

pub record Website : Type 0 where
  pub url : String
  pub label : String
  pub autofill_behavior : String

pub record VaultOverview : Type 0 where
  pub id : String
  pub title : String
  pub active_item_count : ℕ

pub record ItemOverview : Type 0 where
  pub id : String
  pub title : String
  pub category : String
  pub vault_id : String
  pub websites : List Website
  pub tags : List String
  pub created_at : ℕ
  pub updated_at : ℕ
  pub state : ItemState

pub record ItemSection : Type 0 where
  pub id : String
  pub title : String

pub record ItemField : Type 0 where
  pub id : String
  pub title : String
  pub section_id : Option String
  pub field_type : String
  pub value : String

pub record Item : Type 0 where
  pub id : String
  pub title : String
  pub category : String
  pub vault_id : String
  pub fields : List ItemField
  pub sections : List ItemSection
  pub notes : String
  pub tags : List String
  pub websites : List Website
  pub version : ℕ
  pub created_at : ℕ
  pub updated_at : ℕ

pub record ItemCreateParams : Type 0 where
  pub category : String
  pub vault_id : String
  pub title : String
  pub fields : List ItemField
  pub sections : List ItemSection
  pub notes : Option String
  pub tags : List String
  pub websites : List Website

-- An error: whether it is a RateLimitExceededError in its chain, and its text as code points.
pub record SdkError : Type 0 where
  pub rate_limited : Bool
  pub message : List ℕ

pub data Result {ℓ} (A : Type ℓ) : Type ℓ where
  ok : A → Result A
  err : SdkError → Result A

-- To split on a computed answer and keep the equation.
pub Result-cases {ℓ} :
    {A : Type ℓ} (r : Result A) → ((e : SdkError) × (r ≡ err e)) ⊎ ((a : A) × (r ≡ ok a))
Result-cases (ok a) = inr (a, refl)
Result-cases (err e) = inl (e, refl)

-- The per-ID errors: `getAllError` (the ID and the SDK's error type), `errEmptyGetAllResponse`,
-- and the fake client's own.
pub data EntryError : Type 0 where
  get_all_error : String → String → EntryError
  empty_get_all_response : EntryError
  not_found : String → EntryError

-- What one requested ID came back as. Both clients set exactly one of `Item` and `Err`.
pub data Fetch : Type 0 where
  fetched : Item → Fetch
  failed : EntryError → Fetch

pub record ItemResult : Type 0 where
  pub id : String
  pub fetch : Fetch
