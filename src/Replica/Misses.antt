-- ===== src/Replica/Misses.antt =====
-- The negative cache: recent misses, remembered for a time.
use openbao_plugin_secrets_o.Prelude.{
  ℕ, ◌+◌, ◌-◌, ◌≤◌, ◌<◌, String, ltb, none, ◌≡◌, ◌≢◌, eq_iff, arith,
}
use openbao_plugin_secrets_o.Prelude.Int.{pos, int64_limit}
use openbao_plugin_secrets_o.Prelude.Table.{lookup, insert, lookup-insert, lookup-delete}
use openbao_plugin_secrets_o.Replica.{Replica, negative_cache_hit, negative_cache_store}

-- A stored miss suppresses lookups of its key, and of no other, exactly while less than the ttl
-- has passed; then it is dropped.
pub hit-store :
    (r : Replica) (key other : String) (ttl stored now : ℕ)
    → stored ≤ now
    → ttl < int64_limit
    → let r' = negative_cache_store r key stored in
      ((negative_cache_hit r' key (pos ttl) now).1 ≡ ltb now (stored + ttl))
      × (ttl ≤ now - stored
          → lookup key (negative_cache_hit r' key (pos ttl) now).0.negative_cache ≡ none)
      × (other ≢ key
          → lookup other (negative_cache_hit r' key (pos ttl) now).0.negative_cache
            ≡ lookup other r.negative_cache)
unfolding negative_cache_hit negative_cache_store
hit-store r key other ttl stored now le small = ground (
  arith,
  lookup-insert key key stored r.negative_cache,
  lookup-insert key other stored r.negative_cache,
  lookup-delete key key (insert key stored r.negative_cache),
  lookup-delete key other (insert key stored r.negative_cache),
  eq_iff key key,
  eq_iff key other,
)
