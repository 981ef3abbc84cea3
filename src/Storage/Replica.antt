-- ===== src/Storage/Replica.antt =====
-- storage.rs: the choice between the primary and the read replica.
use hyperswitch_card_vault.Common.{◌≡◌, ◌↔◌, refl, Option, ◌&&◌, Bool, true, false, none, some, err}
use hyperswitch_card_vault.Error.Types.{StorageError}
use hyperswitch_card_vault.Storage.World.{
  World, RuntimeConfigValues, Pools, get_replica_conn, has_replica, should_use_replica, route_conn,
}

-- The replica is switched on: it is configured, and the runtime configuration was fetched and says so.
abbrev pub IsReplicaOn : {R D : Type 0} → Pools D → World R D → Type 0
IsReplicaOn pools w =
    (has_replica pools ≡ true)
    × ((conf : RuntimeConfigValues) × (w.runtime_config ≡ some conf) × (conf.use_replica ≡ true))

both_iff :
    (b : Bool) (o : Option RuntimeConfigValues)
    → ((b && elim o [ none ↦ false | some conf ↦ conf.use_replica ]) ≡ true)
      ↔ ((b ≡ true) × ((conf : RuntimeConfigValues) × (o ≡ some conf) × (conf.use_replica ≡ true)))
both_iff false o = ((λ h. absurd cc), (λ (h, rest). absurd cc))
both_iff true none = ((λ h. absurd cc), (λ (h, (conf, e, u)). absurd cc))
both_iff true (some conf) = ((λ h. (refl, (conf, refl, h))), (λ (h, (c, e, u)). cc))

module _ {R D : Type 0} (pools : Pools D) (w : World R D) where
  -- The replica is chosen for reads exactly where it is configured, and the runtime configuration was
  -- fetched and asks for it.
  pub should_use_replica_iff : (should_use_replica pools w ≡ true) ↔ IsReplicaOn pools w
  unfolding should_use_replica
  should_use_replica_iff = both_iff (has_replica pools) w.runtime_config

  -- With the replica switched on, a read whose replica grants no connection is an error: the primary is
  -- no fallback.
  pub route_conn-no_fallback :
      (pool : D → Bool)
      → pools.replica_pg_pool ≡ some pool
      → pool w.db ≡ false
      → IsReplicaOn pools w
      → route_conn pools w ≡ (err StorageError.pool_client_failure, w)
  unfolding route_conn get_replica_conn
  route_conn-no_fallback pool configured refused on =
      rw (route_conn, should_use_replica_iff.1 on, get_replica_conn, configured, refused)
