-- ===== src/Writes/Deletes.antt =====
-- What a write or a delete that 1Password accepts leaves in the replica.
use openbao_plugin_secrets_o.Prelude.{
  ℕ, ◌≤◌, String, Bool, true, false, Option, none, some, ◌≡◌, ◌≢◌, refl, ◌∙◌, eq_iff, arith,
  Bool-cases, inl, inr,
}
use openbao_plugin_secrets_o.Prelude.Table.{lookup, has, lookup-insert}
use openbao_plugin_secrets_o.Onepassword.{Item, Result, ok, err}
use openbao_plugin_secrets_o.Replica.{Replica, body, is_newer, apply_write, apply_delete}
use openbao_plugin_secrets_o.Replica.Consistent.{
  IsConsistent, apply_write-IsConsistent, apply_delete-IsConsistent,
}
use openbao_plugin_secrets_o.Replica.Writes.{apply_write-reads, apply_delete-reads}
use openbao_plugin_secrets_o.Engine.{Engine, Factory, replica_of, put_replica}
use openbao_plugin_secrets_o.Writes.{WriteClock, written, deleted, finish_write, finish_delete}

replica_of-put_replica :
    {W : Type 0} (e : Engine W) (id : String) (r : Replica) → replica_of (put_replica e id r) id ≡ r
unfolding replica_of put_replica
replica_of-put_replica e id r = ground (arith, lookup-insert id id r e.replicas, eq_iff id id)

newer-body :
    (held : Option Item) (version : ℕ)
    → is_newer held version ≡ true
    → (item : Item) × (held ≡ some item) × (version ≤ item.version)
newer-body none version h = absurd (ground arith)
newer-body (some item) version h = (item, refl, ground arith)

module _ {W : Type 0} (factory : Factory W) (at : WriteClock) (vault_id : String)
    (e : Engine W) where
  pub finish_delete-replica :
      (id : String) (result : Result (Unit {0}) × W)
      → let (e', response) = finish_delete factory at vault_id id result e in
        response ≡ deleted
        → replica_of e' vault_id ≡ apply_delete (replica_of e vault_id) id e.splitter
  unfolding finish_delete
  finish_delete-replica id (ok u, w) h =
      replica_of-put_replica _ vault_id _ ∙ unfold replica_of in refl
  finish_delete-replica id (err x, w) h = absurd (ground arith)

  pub finish_write-replica :
      (warned : Bool) (result : Result Item × W) (out : Item)
      → let (e', response) = finish_write factory at vault_id warned result e in
        response ≡ written out warned
        → replica_of e' vault_id ≡ apply_write (replica_of e vault_id) out e.splitter
  unfolding finish_write
  finish_write-replica warned (ok item, w) out h =
      let same : item ≡ out = ground arith in
      rw (← same) (replica_of-put_replica _ vault_id _ ∙ unfold replica_of in refl)
  finish_write-replica warned (err x, w) out h = absurd (ground arith)

  -- A delete that is answered with success has taken the item out of the replica: it has neither
  -- body nor overview and is tombstoned, every other item reads as before, and the replica is
  -- consistent if it was.
  pub finish_delete-gone :
      (id other : String) (result : Result (Unit {0}) × W)
      → let (e', response) = finish_delete factory at vault_id id result e in
        let r = replica_of e vault_id in
        let r' = replica_of e' vault_id in
        response ≡ deleted
        → (body r' id ≡ none)
          × (has id r'.overview ≡ false)
          × (has id r'.tombstones ≡ true)
          × (other ≢ id → body r' other ≡ body r other)
          × (IsConsistent e.splitter r → IsConsistent e.splitter r')
  finish_delete-gone id other result h =
      let same = finish_delete-replica id result h in
      let r = replica_of e vault_id in
      let here = apply_delete-reads r id e.splitter id in
      let there = apply_delete-reads r id e.splitter other in
      rw same (
        here.0 ∙ ground (arith, eq_iff id id),
        ground (arith, here.1, eq_iff id id),
        here.2,
        λ differ. there.0 ∙ ground (arith, eq_iff id other),
        apply_delete-IsConsistent e.splitter r id,
      )

  -- A write that is answered with the item can be read back at once: the replica holds a body of
  -- that item at its version or a newer one, exactly the returned item unless a newer one was
  -- there, and the replica is consistent if it was.
  pub finish_write-reads :
      (warned : Bool) (result : Result Item × W) (out : Item)
      → let (e', response) = finish_write factory at vault_id warned result e in
        let r = replica_of e vault_id in
        let r' = replica_of e' vault_id in
        response ≡ written out warned
        → ((item : Item) × (body r' out.id ≡ some item) × (out.version ≤ item.version))
          × (is_newer (body r out.id) out.version ≡ false → body r' out.id ≡ some out)
          × (IsConsistent e.splitter r → IsConsistent e.splitter r')
  finish_write-reads warned result out h =
      let same = finish_write-replica warned result out h in
      let r = replica_of e vault_id in
      let reads = apply_write-reads r out e.splitter out.id in
      let fresh : is_newer (lookup out.id r.bodies) out.version ≡ false
          → body (apply_write r out e.splitter) out.id ≡ some out =
        λ older. (reads.1 older).0 ∙ ground (arith, eq_iff out.id out.id) in
      rw same (
        elim (Bool-cases (is_newer (lookup out.id r.bodies) out.version)) [
          | inl newer ↦
              rw (reads.0 newer)
                (unfold body in newer-body (lookup out.id r.bodies) out.version newer)
          | inr older ↦ (out, fresh older, omega arith)
        ],
        λ older. fresh (unfold body in older),
        apply_write-IsConsistent e.splitter r out,
      )
