-- ===== src/Writes/Examples.antt =====
-- A vault that may be written, on the fake client.
use openbao_plugin_secrets_o.Prelude.{false, some, [], ◌∷◌, refl, eq_iff, arith, any}
use openbao_plugin_secrets_o.Prelude.Table.{lookup, insert}
use openbao_plugin_secrets_o.Onepassword.{Item}
use openbao_plugin_secrets_o.Fake
use openbao_plugin_secrets_o.Fake.{FakeOpClient, new_fake}
use openbao_plugin_secrets_o.Fake.View.{view}
use openbao_plugin_secrets_o.Replica.{
  new_replica, body, overview_of, apply_write, rebuild_indexes, resolve_item_address,
}
use openbao_plugin_secrets_o.Fields.Body.{nothing}
use openbao_plugin_secrets_o.Engine.{
  Engine, replica_of, open_replica, resolve_vault_address, ensure_client,
}
use openbao_plugin_secrets_o.Writes.{begin_write, locate_item, fetch_fresh, finish_write}
use openbao_plugin_secrets_o.Governor.{allow, new_governor}
use openbao_plugin_secrets_o.Address.{resolve_item_from_segments}
use openbao_plugin_secrets_o.Prelude.Text.{split}
use openbao_plugin_secrets_o.Client.{chunk_ids}
use openbao_plugin_secrets_o.Fields.{apply_fields}
use openbao_plugin_secrets_o.Writes.Handlers.{path_item_write}
use openbao_plugin_secrets_o.Writes.Whole.{IsWritten, Call, item_write, handle, writes_read_back}
use openbao_plugin_secrets_o.Writes.Mirror.{Mirrors, puts, perform, perform-Mirrors}
use openbao_plugin_secrets_o.Writes.Tests.{
  label_of, connect, read_only, version_of, engine, moments, sdk_names, empty_body,
}

code : Unit {0}
unfolding path_item_write begin_write locate_item fetch_fresh finish_write resolve_vault_address
    allow ensure_client lookup insert body any new_governor resolve_item_from_segments split
    resolve_item_address replica_of open_replica apply_write new_replica Fake.fake_client chunk_ids
    apply_fields
code = tt

abbrev writable_engine : Engine FakeOpClient
writable_engine = record engine {
  config = some (record read_only { write_vaults = "Infra" ∷ [] });
  remote = record new_fake {
    items = ("v1", overview_of (version_of 1) ∷ []) ∷ [];
    item_bodies = ("v1", ("a", version_of 1) ∷ []) ∷ [];
  };
}

out : Item
out = record (version_of 2) { notes = "hello"; updated_at = 1000000001 }

-- The body sets the notes only.
call : Call
call = item_write "a" nothing empty_body

writes_read_back_example :
    IsWritten connect moments writable_engine "Infra" out
      (handle connect moments sdk_names label_of 0 "Infra" writable_engine call).0
unfolding code call out
writes_read_back_example =
    writes_read_back connect moments sdk_names label_of 0 "Infra" writable_engine call out false
      refl

mirrored : Mirrors "v1" writable_engine
unfolding body replica_of view lookup insert new_replica apply_write rebuild_indexes
mirrored id = ground (arith, eq_iff "a" id)

perform-Mirrors_example :
    Mirrors "v1"
      (perform label_of connect moments "v1" (puts (version_of 1) false) writable_engine).0
perform-Mirrors_example =
    perform-Mirrors label_of connect moments "v1" (puts (version_of 1) false) writable_engine refl
      mirrored
