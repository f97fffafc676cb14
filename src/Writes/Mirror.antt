-- ===== src/Writes/Mirror.antt =====
-- Writes and deletes through the engine against the fake client: the replica stays a mirror of the
-- vault, without a cycle.
use openbao_plugin_secrets_o.Prelude.{
  ℕ, ◌+◌, String, Bool, false, none, some, ◌≡◌, refl, sym, ap, ◌∙◌, str_eq, if◌then◌else◌,
}
use openbao_plugin_secrets_o.Prelude.Table.{lookup}
use openbao_plugin_secrets_o.Onepassword.{Item, ItemCreateParams, Result, SdkError, ok, err}
use openbao_plugin_secrets_o.Fake.{FakeOpClient, fake_client}
use openbao_plugin_secrets_o.Fake.View.{
  view, stored, put_item-stores, put_item-failed, create_item-stores, create_item-failed,
  view-delete_item, view-delete_failed,
}
use openbao_plugin_secrets_o.Replica.{body, is_newer}
use openbao_plugin_secrets_o.Replica.Writes.{apply_write-reads, apply_delete-reads}
use openbao_plugin_secrets_o.Engine.{Engine, Factory, replica_of, put_replica}
use openbao_plugin_secrets_o.Writes.{WriteClock, Response, finish_write, finish_delete}
use openbao_plugin_secrets_o.Writes.Deletes.{finish_write-replica, finish_delete-replica}

-- The replica holds what the vault holds.
abbrev pub Mirrors : String → Engine FakeOpClient → Type 0
Mirrors vault_id e = (id : String) → body (replica_of e vault_id) id ≡ view e.remote vault_id id

-- A change of the vault, as the handlers make it when they have located the item.
pub data Change : Type 0 where
  puts : Item → Bool → Change
  creates : ItemCreateParams → Change
  removes : String → Change

module _ (name : ℕ → String) (factory : Factory FakeOpClient) (at : WriteClock)
    (vault_id : String) where
  unfoldable pub perform : Change → Engine FakeOpClient → Engine FakeOpClient × Response
  perform (puts item warned) e =
      finish_write factory at vault_id warned ((fake_client name).put_item item e.remote) e
  perform (creates params) e =
      finish_write factory at vault_id false ((fake_client name).create_item params e.remote) e
  perform (removes id) e =
      finish_delete factory at vault_id id ((fake_client name).delete_item vault_id id e.remote) e

  -- The change is one of this vault; what is created gets an ID that the vault does not hold.
  abbrev pub IsOwn : Change → Engine FakeOpClient → Type 0
  IsOwn (puts item warned) e = item.vault_id ≡ vault_id
  IsOwn (creates params) e =
      (params.vault_id ≡ vault_id) × (view e.remote vault_id (name (e.remote.next_id + 1)) ≡ none)
  IsOwn (removes id) e = Unit {0}

  finish_write-remote :
      (e : Engine FakeOpClient) (warned : Bool) (result : Result Item) (w : FakeOpClient)
      → (finish_write factory at vault_id warned (result, w) e).0.remote ≡ w
  unfolding finish_write put_replica
  finish_write-remote e warned (ok out) w = refl
  finish_write-remote e warned (err x) w = refl

  finish_delete-remote :
      (e : Engine FakeOpClient) (id : String) (result : Result (Unit {0})) (w : FakeOpClient)
      → (finish_delete factory at vault_id id (result, w) e).0.remote ≡ w
  unfolding finish_delete put_replica
  finish_delete-remote e id (ok u) w = refl
  finish_delete-remote e id (err x) w = refl

  failed-Mirrors :
      (e : Engine FakeOpClient) (warned : Bool) (x : SdkError) (w : FakeOpClient)
      → ((id : String) → view w vault_id id ≡ view e.remote vault_id id)
      → Mirrors vault_id e
      → Mirrors vault_id (finish_write factory at vault_id warned (err x, w) e).0
  unfolding finish_write replica_of
  failed-Mirrors e warned x w same m id = m id ∙ sym (same id)

  stored-Mirrors :
      (e : Engine FakeOpClient) (warned : Bool) (out : Item) (w : FakeOpClient)
      → is_newer (view e.remote vault_id out.id) out.version ≡ false
      → ((id : String)
          → view w vault_id id ≡ (if str_eq out.id id then some out else view e.remote vault_id id))
      → Mirrors vault_id e
      → Mirrors vault_id (finish_write factory at vault_id warned (ok out, w) e).0
  stored-Mirrors e warned out w newest stores m id =
      let r = replica_of e vault_id in
      let older : is_newer (lookup out.id r.bodies) out.version ≡ false =
        unfold body in (rw (← m out.id) at newest) in
      let folded =
        finish_write-replica factory at vault_id e warned (ok out, w) out
          (unfold finish_write in refl) in
      ap (λ s. body s id) folded
      ∙ ((apply_write-reads r out e.splitter id).1 older).0
      ∙ rw (m id) (sym (stores id))
      ∙ ap (λ (f : FakeOpClient). view f vault_id id)
          (sym (finish_write-remote e warned (ok out) w))

  written-Mirrors :
      (e : Engine FakeOpClient) (warned : Bool) (result : Result Item) (w : FakeOpClient)
      → ((out : Item)
          → result ≡ ok out
          → (is_newer (view e.remote vault_id out.id) out.version ≡ false)
            × ((id : String)
                → view w vault_id id
                  ≡ (if str_eq out.id id then some out else view e.remote vault_id id)))
      → ((x : SdkError) (id : String)
          → result ≡ err x
          → view w vault_id id ≡ view e.remote vault_id id)
      → Mirrors vault_id e
      → Mirrors vault_id (finish_write factory at vault_id warned (result, w) e).0
  written-Mirrors e warned (err x) w stores same m =
      failed-Mirrors e warned x w (λ id. same x id refl) m
  written-Mirrors e warned (ok out) w stores same m =
      let (newest, stored) = stores out refl in stored-Mirrors e warned out w newest stored m

  removed-Mirrors :
      (e : Engine FakeOpClient) (id : String) (result : Result (Unit {0})) (w : FakeOpClient)
      → ((u : Unit {0}) (other : String)
          → result ≡ ok u
          → view w vault_id other
            ≡ (if str_eq id other then none else view e.remote vault_id other))
      → ((x : SdkError) (other : String)
          → result ≡ err x
          → view w vault_id other ≡ view e.remote vault_id other)
      → Mirrors vault_id e
      → Mirrors vault_id (finish_delete factory at vault_id id (result, w) e).0
  unfolding finish_delete
  removed-Mirrors e id (err x) w gone same m other =
      unfold replica_of in (m other ∙ sym (same x other refl))
  removed-Mirrors e id (ok u) w gone same m other =
      ap (λ s. body s other) (finish_delete-replica factory at vault_id e id (ok u, w) refl)
      ∙ (apply_delete-reads (replica_of e vault_id) id e.splitter other).0
      ∙ rw (m other) (sym (gone u other refl))
      ∙ ap (λ (f : FakeOpClient). view f vault_id other) (sym (finish_delete-remote e id (ok u) w))

  -- Against the fake client, a write of an item, a create and a delete keep the replica a mirror of
  -- the vault, whether 1Password accepts them or refuses them: the body under each ID stays the
  -- item that the vault holds there as active.
  pub perform-Mirrors :
      (change : Change) (e : Engine FakeOpClient)
      → IsOwn change e
      → Mirrors vault_id e
      → Mirrors vault_id (perform change e).0
  unfolding perform fake_client
  perform-Mirrors (puts item warned) e own m =
      written-Mirrors e warned _ _ (λ out good. put_item-stores item e.remote vault_id out own good)
        (λ x id bad. put_item-failed item e.remote x vault_id id bad) m
  perform-Mirrors (creates params) e own m =
      written-Mirrors e false _ _
        (λ out good. create_item-stores name params e.remote vault_id out own.0 own.1 good)
        (λ x id bad. create_item-failed name params e.remote x vault_id id bad) m
  perform-Mirrors (removes id) e own m =
      removed-Mirrors e id _ _ (λ u other good. view-delete_item vault_id id e.remote u other good)
        (λ x other bad. view-delete_failed vault_id id e.remote x other bad) m
