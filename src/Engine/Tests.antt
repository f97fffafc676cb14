-- ===== src/Engine/Tests.antt =====
-- An engine with one vault on the fake client.
use openbao_plugin_secrets_o.Prelude.{ℕ, String, true, false, none, some, [], ◌∷◌, ◌≡◌, refl, inl}
use openbao_plugin_secrets_o.Prelude.Int.{pos}
use openbao_plugin_secrets_o.Prelude.Time.{minute, hour}
use openbao_plugin_secrets_o.Prelude.Table.{Table, lookup, insert, delete}
use openbao_plugin_secrets_o.Onepassword.{VaultOverview, Item, ok}
use openbao_plugin_secrets_o.Config.{Config}
use openbao_plugin_secrets_o.Config.Rules.{Member}
use openbao_plugin_secrets_o.Governor.{new_governor, client_init_allowed}
use openbao_plugin_secrets_o.Replica.{
  Replica, new_replica, apply_write, rebuild_indexes, resolve_item_address, resolve_split_path,
}
use openbao_plugin_secrets_o.Fake.{FakeOpClient, new_fake, fake_client}
use openbao_plugin_secrets_o.Address.{
  FieldAddress, field_at, with_field, resolve_item_from_segments,
}
use openbao_plugin_secrets_o.Engine.Vaults.{Names, refresh_vault_directory-allowed}
use openbao_plugin_secrets_o.Engine.Reads.{
  ServesHeld, ensure_item_fresh-held, ensure_item_fresh-found,
}
use openbao_plugin_secrets_o.Engine.{
  Clock, Engine, Factory, found, ensure_client, resolve_vault_address, refresh_vault_directory,
  replica_of,
}
use openbao_plugin_secrets_o.Engine.Freshness.{ensure_item_fresh}

abbrev naming : ℕ → String
naming n = "new"

abbrev connects : Factory FakeOpClient
connects token f = (ok (fake_client naming), f)

abbrev settings : Config
settings = record {
  service_account_token = "ops_token";
  vaults = "Infra" ∷ [];
  write_vaults = [];
  refresh_interval = pos hour;
  daily_request_limit = pos 1000;
  hourly_read_limit = pos 100;
  passthrough = false;
  passthrough_ceiling_pct = pos 80;
  passthrough_ttl = pos 0;
  serve_stale = true;
  negative_cache_ttl = pos minute;
  path_split = "";
  always_fresh = [];
  ratelimit_probe_cmd = "";
}

abbrev mail : Item
mail = record {
  id = "a";
  title = "mail";
  category = "Login";
  vault_id = "v1";
  fields = [];
  sections = [];
  notes = "";
  tags = [];
  websites = [];
  version = 1;
  created_at = 1;
  updated_at = 1;
}

abbrev started : Engine FakeOpClient
started = record {
  config = some settings;
  client = none;
  splitter = none;
  replicas = ("v1", apply_write (new_replica "v1") mail none) ∷ [];
  gate = new_governor;
  directory = none;
  allowlist = [];
  unresolved = [];
  remote = record new_fake {
    vaults = record { id = "v1"; title = "Infra"; active_item_count = 1 } ∷ [];
  };
}

abbrev times : Clock
times = record {
  now = hour;
  client_asked = hour;
  client_built = hour;
  cycle = record { asked = hour; listed = hour; got = hour; done = hour };
}

with_directory : Engine FakeOpClient
with_directory = (refresh_vault_directory connects times started).0

engine_code : Unit {0}
unfolding with_directory refresh_vault_directory ensure_client client_init_allowed
    resolve_vault_address fake_client new_governor lookup insert delete
engine_code = tt

refresh_vault_directory-allowed_example :
    (dir : Table VaultOverview) × (with_directory.directory ≡ some dir)
    × ((entry : String) × Member entry ("Infra" ∷ []) × Names dir entry "v1")
unfolding with_directory
refresh_vault_directory-allowed_example =
    refresh_vault_directory-allowed connects times started settings "Infra" "v1" refl
      (unfold engine_code in refl) (unfold engine_code in refl)

abbrev by_title : Replica → FieldAddress
by_title r = with_field (resolve_item_from_segments r ("mail" ∷ [])) "" ""

read_code : Unit {0}
unfolding ensure_item_fresh resolve_item_from_segments resolve_item_address resolve_split_path
    new_replica apply_write rebuild_indexes lookup insert delete
read_code = tt

ensure_item_fresh-held_example :
    let (e', outcome) = ensure_item_fresh connects times "v1" "mail" by_title started in
    (outcome ≡ found "a" "" "")
    × (e'.remote ≡ started.remote)
    × (replica_of e' "v1" ≡ replica_of started "v1")
ensure_item_fresh-held_example =
    ensure_item_fresh-held connects times "v1" "mail" by_title started settings "a" "" "" refl
      (unfold read_code in refl) (unfold ServesHeld in inl refl)

ensure_item_fresh-found_example :
    by_title (replica_of (ensure_item_fresh connects times "v1" "mail" by_title started).0 "v1")
    ≡ field_at "a" "" ""
ensure_item_fresh-found_example =
    ensure_item_fresh-found connects times "v1" "mail" by_title started "a" "" ""
      (ensure_item_fresh-held connects times "v1" "mail" by_title started settings "a" "" "" refl
        (unfold read_code in refl) (unfold ServesHeld in inl refl)).0
