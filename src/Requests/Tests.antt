-- ===== src/Requests/Tests.antt =====
-- A field that is read from a warm replica, with passthrough off.
use openbao_plugin_secrets_o.Prelude.{ℕ, String, true, false, none, some, [], ◌∷◌, ◌≡◌, refl}
use openbao_plugin_secrets_o.Prelude.Int.{pos}
use openbao_plugin_secrets_o.Prelude.Time.{minute, hour}
use openbao_plugin_secrets_o.Prelude.Table.{lookup, insert, delete, has}
use openbao_plugin_secrets_o.Prelude.Text.{split}
use openbao_plugin_secrets_o.Onepassword.{ItemField, Item, ok}
use openbao_plugin_secrets_o.Config.{Config}
use openbao_plugin_secrets_o.Governor.{new_governor, is_vault_failing}
use openbao_plugin_secrets_o.Replica.{
  new_replica, apply_write, rebuild_indexes, body, resolve_item_address, resolve_split_path,
  overview_updated_at,
}
use openbao_plugin_secrets_o.Fake.{FakeOpClient, new_fake, fake_client}
use openbao_plugin_secrets_o.Address.{lookup_field, resolve_field_address}
use openbao_plugin_secrets_o.Engine.{Engine, Factory, got, resolve_vault_address}
use openbao_plugin_secrets_o.Requests.Served.{IsServed, path_field_read-serves}
use openbao_plugin_secrets_o.Requests.{ReadMeta, ReadClock, read_meta_for, serve, path_field_read}
use openbao_plugin_secrets_o.Engine.Freshness.{check_serve_stale_allowed, ensure_item_fresh}

abbrev ids : ℕ → String
ids n = "new"

abbrev pub builds : Factory FakeOpClient
builds token f = (ok (fake_client ids), f)

abbrev password : ItemField
password = record {
  id = "password";
  title = "password";
  section_id = none;
  field_type = "Concealed";
  value = "hunter2";
}

abbrev pub account : Item
account = record {
  id = "a";
  title = "bank";
  category = "Login";
  vault_id = "v1";
  fields = password ∷ [];
  sections = [];
  notes = "";
  tags = [];
  websites = [];
  version = 1;
  created_at = 1;
  updated_at = 7;
}

abbrev pub quiet : Config
quiet = record {
  service_account_token = "ops_token";
  vaults = "Infra" ∷ [];
  write_vaults = [];
  refresh_interval = pos hour;
  daily_request_limit = pos 1000;
  hourly_read_limit = pos 100;
  passthrough = false;
  passthrough_ceiling_pct = pos 80;
  passthrough_ttl = pos 0;
  serve_stale = true;
  negative_cache_ttl = pos minute;
  path_split = "";
  always_fresh = "Infra/bank" ∷ "Infra/mail" ∷ [];
  ratelimit_probe_cmd = "";
}

abbrev pub warmed : Engine FakeOpClient
warmed = record {
  config = some quiet;
  client = none;
  splitter = none;
  replicas = ("v1", apply_write (new_replica "v1") account none) ∷ [];
  gate = new_governor;
  directory = some (("v1", record { id = "v1"; title = "Infra"; active_item_count = 1 }) ∷ []);
  allowlist = ("v1", tt) ∷ [];
  unresolved = [];
  remote = new_fake;
}

abbrev pub reading : ReadClock
reading = record {
  clock = record {
    now = hour;
    client_asked = hour;
    client_built = hour;
    cycle = record { asked = hour; listed = hour; got = hour; done = hour };
  };
  served = hour;
  marked = hour;
}

abbrev mark : ReadMeta
mark = record { replica_age = pos hour; item_updated_at = 7; stale = false; stale_suspect = false }

path_field_read-serves_example :
    (vault_id : String) × (resolve_vault_address warmed "Infra" ≡ got vault_id)
    × (has vault_id warmed.allowlist ≡ true)
    × IsServed reading vault_id "bank/password" password mark
        (path_field_read builds reading "Infra" "bank/password" warmed).0
path_field_read-serves_example =
    path_field_read-serves builds reading "Infra" "bank/password" warmed password mark (
      unfold path_field_read serve read_meta_for is_vault_failing resolve_vault_address
        ensure_item_fresh check_serve_stale_allowed resolve_field_address resolve_item_address
        resolve_split_path lookup_field split new_replica new_governor apply_write rebuild_indexes
        body overview_updated_at lookup insert delete in
      refl)
