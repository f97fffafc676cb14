-- ===== src/Writes/Tests.antt =====
-- Writes to a vault that may be written, and to one that may not.
use openbao_plugin_secrets_o.Prelude.{
  ℕ, ◌+◌, arith, String, true, false, none, some, [], ◌∷◌, ◌≡◌, ◌≢◌, ◌⊎◌, refl, any,
}
use openbao_plugin_secrets_o.Prelude.Int.{pos}
use openbao_plugin_secrets_o.Prelude.Time.{minute, hour}
use openbao_plugin_secrets_o.Prelude.Table.{has}
use openbao_plugin_secrets_o.Onepassword.{Item, ok}
use openbao_plugin_secrets_o.Config.{Config}
use openbao_plugin_secrets_o.Governor.{new_governor, auth_failed, manual}
use openbao_plugin_secrets_o.Replica.{new_replica, body, apply_write}
use openbao_plugin_secrets_o.Replica.Consistent.{IsConsistent}
use openbao_plugin_secrets_o.Fake.{FakeOpClient, new_fake, fake_client}
use openbao_plugin_secrets_o.Fields.Body.{nothing, parse_field_writes}
use openbao_plugin_secrets_o.Engine.{Engine, Factory, replica_of, resolve_vault_address, got}
use openbao_plugin_secrets_o.Governor.Admission.{Admits}
use openbao_plugin_secrets_o.Writes.Guard.{
  NotWritable, IsRefusal, IsRefusedBody, IsTurnedAway, not_writable_is_untouched,
  deferred_write_asks_nothing,
}
use openbao_plugin_secrets_o.Writes.Deletes.{finish_delete-gone}
use openbao_plugin_secrets_o.Writes.Spend.{spent, writes_spend}
use openbao_plugin_secrets_o.Writes.{
  written, deleted, fresh, fetch_fresh, WriteClock, value_required, Names, ItemWrite,
  is_write_vault, finish_delete,
}
use openbao_plugin_secrets_o.Writes.Handlers.{
  put_merged, create_new, path_item_delete, path_item_write, path_field_write,
}

abbrev pub label_of : ℕ → String
label_of n = "new"

abbrev pub connect : Factory FakeOpClient
connect token f = (ok (fake_client label_of), f)

abbrev pub read_only : Config
read_only = record {
  service_account_token = "ops_token";
  vaults = "Infra" ∷ [];
  write_vaults = [];
  refresh_interval = pos hour;
  daily_request_limit = pos 1000;
  hourly_read_limit = pos 100;
  passthrough = true;
  passthrough_ceiling_pct = pos 80;
  passthrough_ttl = pos 0;
  serve_stale = true;
  negative_cache_ttl = pos minute;
  path_split = "";
  always_fresh = [];
  ratelimit_probe_cmd = "";
}

abbrev pub version_of : ℕ → Item
version_of n = record {
  id = "a";
  title = "mail";
  category = "Login";
  vault_id = "v1";
  fields = [];
  sections = [];
  notes = "";
  tags = [];
  websites = [];
  version = n;
  created_at = 1;
  updated_at = 1;
}

abbrev pub engine : Engine FakeOpClient
engine = record {
  config = some read_only;
  client = some (fake_client label_of);
  splitter = none;
  replicas = ("v1", apply_write (new_replica "v1") (version_of 1) none) ∷ [];
  gate = new_governor;
  directory = some (("v1", record { id = "v1"; title = "Infra"; active_item_count = 1 }) ∷ []);
  allowlist = ("v1", tt) ∷ [];
  unresolved = [];
  remote = new_fake;
}

abbrev pub moments : WriteClock
moments = record {
  allowed = hour;
  fetched = hour;
  written = hour;
  clock = record {
    now = hour;
    client_asked = hour;
    client_built = hour;
    cycle = record { asked = hour; listed = hour; got = hour; done = hour };
  };
}

abbrev pub sdk_names : Names
sdk_names = record {
  types = record { names = "Text" ∷ "Concealed" ∷ []; text = "Text"; concealed = "Concealed" };
  categories = "Login" ∷ [];
  login = "Login";
  anywhere = "AnywhereOnWebsite";
}

abbrev pub empty_body : ItemWrite
empty_body = record { category = ""; writes = []; notes = some "hello"; tags = none; url = "" }

nothing_writable : NotWritable connect moments "Infra" engine
unfolding NotWritable is_write_vault any
nothing_writable vault_id reached = refl

not_writable_is_untouched_example :
    (((path_item_delete connect moments "Infra" "mail" engine).0 ≡ engine)
      × IsRefusal connect moments "Infra" engine
          (path_item_delete connect moments "Infra" "mail" engine).1)
    × (((path_field_write connect sdk_names label_of 0 moments "Infra" "mail/token"
            (some "x")
            ""
            engine).0
          ≡ engine)
        × IsRefusal connect moments "Infra" engine
            (path_field_write connect sdk_names label_of 0 moments "Infra" "mail/token"
              (some "x")
              ""
              engine).1)
    × (((path_item_write connect sdk_names label_of 0 moments "Infra" "mail" nothing empty_body
            engine).0
          ≡ engine)
        × IsRefusedBody connect moments "Infra" engine empty_body
            (path_item_write connect sdk_names label_of 0 moments "Infra" "mail" nothing empty_body
              engine).1)
not_writable_is_untouched_example =
    not_writable_is_untouched connect moments "Infra" engine sdk_names label_of 0 "mail"
      "mail/token" (some "x") "" nothing empty_body nothing_writable

abbrev locked_engine : Engine FakeOpClient
locked_engine = record engine { gate = record new_governor { state = auth_failed } }

-- The engine while authentication has failed, with a vault that may be written.
abbrev writable_config : Config
writable_config = record read_only { write_vaults = "v1" ∷ [] }

abbrev locked_out : Engine FakeOpClient
locked_out = record locked_engine { config = some writable_config }

reaches_the_vault : resolve_vault_address locked_out "Infra" ≡ got "v1"
unfolding resolve_vault_address openbao_plugin_secrets_o.Prelude.Table.lookup
reaches_the_vault = refl

may_be_written : is_write_vault connect locked_out "v1" ≡ true
unfolding is_write_vault any
may_be_written = refl

is_held : ¬ Admits locked_out.gate moments.allowed "v1" manual
unfolding new_governor
is_held a = ground (arith, a.open_state)

deferred_write_asks_nothing_example :
    IsTurnedAway connect moments "Infra" locked_out
      (path_item_delete connect moments "Infra" "mail" locked_out)
    × IsTurnedAway connect moments "Infra" locked_out (
        path_field_write connect sdk_names label_of 0 moments "Infra" "mail/token"
          (some "x")
          ""
          locked_out)
    × IsTurnedAway connect moments "Infra" locked_out (
        path_item_write connect sdk_names label_of 0 moments "Infra" "mail" nothing empty_body
          locked_out)
deferred_write_asks_nothing_example =
    deferred_write_asks_nothing connect moments "Infra" locked_out sdk_names label_of 0 "mail"
      "mail/token" "x" "" nothing empty_body [] "" "v1" reaches_the_vault may_be_written is_held
      (unfold parse_field_writes in refl) refl

-- A field write without a value is refused before anything else.
needs_a_value :
    (path_field_write connect sdk_names label_of 0 moments "Infra" "mail/token" none "" engine).1
    ≡ value_required
unfolding path_field_write
needs_a_value = refl

abbrev a_id : String
a_id = "a"

abbrev b_id : String
b_id = "b"

is_gone_after_delete :
    let r = replica_of engine "v1" in
    let r' = replica_of (finish_delete connect moments "v1" "a" (ok tt, new_fake) engine).0 "v1" in
    (body r' "a" ≡ none)
    × (has "a" r'.overview ≡ false)
    × (has "a" r'.tombstones ≡ true)
    × (b_id ≢ a_id → body r' "b" ≡ body r "b")
    × (IsConsistent none r → IsConsistent none r')
is_gone_after_delete =
    finish_delete-gone connect moments "v1" engine "a" "b" (ok tt, new_fake)
      (unfold finish_delete in refl)

-- The fake holds the item, so an update is fetched and put.
abbrev pub stocked : Engine FakeOpClient
stocked = record engine {
  remote = record new_fake { item_bodies = ("v1", ("a", version_of 1) ∷ []) ∷ [] };
}

writes_spend_example :
    let client = fake_client label_of in
    (let (e₁, fetched) = fetch_fresh connect moments client "v1" "a" stocked in
      let (e₂, response) =
        put_merged connect sdk_names label_of 0 moments "v1" client empty_body false
          (version_of 1)
          e₁ in
      fetched ≡ fresh (version_of 1)
      → response ≡ written (version_of 2) false
      → spent e₂ hour hour ≡ spent stocked hour hour + 2)
    × (let (e₁, response) =
          create_new connect sdk_names label_of 0 moments "v1" client "new" empty_body stocked in
        response ≡ written (version_of 2) false → spent e₁ hour hour ≡ spent stocked hour hour + 1)
    × (let (e₁, response) =
          finish_delete connect moments "v1" "a"
            (client.delete_item "v1" "a" stocked.remote)
            stocked in
        response ≡ deleted → spent e₁ hour hour ≡ spent stocked hour hour + 1)
writes_spend_example =
    writes_spend connect moments "v1" hour (omega arith) (omega arith) sdk_names label_of 0
      (fake_client label_of) empty_body stocked "a" "new" (version_of 1) (version_of 2) refl
