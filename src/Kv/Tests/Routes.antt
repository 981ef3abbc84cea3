-- ===== src/Kv/Tests/Routes.antt =====
-- A read of the vault table on a Redis that is down.
use hyperswitch_card_vault.Common.{◌≡◌, refl, false, err, arith}
use hyperswitch_card_vault.Error.Types.{VaultDbError}
use hyperswitch_card_vault.Storage.Scheme.{KvState}
use hyperswitch_card_vault.Storage.World.{kv_settings}
use hyperswitch_card_vault.Kv.Errors.{
  RedisError, redis_error_from_ref, to_redis_failed_response, vault_of_kv,
}
use hyperswitch_card_vault.Kv.Wrapper.{kv_wrapper, run_operation}
use hyperswitch_card_vault.Kv.Resource.Find.{find_resource_by_id}
use hyperswitch_card_vault.Kv.Resource.Routing.{find_failure}
use hyperswitch_card_vault.Kv.Tests.{store, empty, pk, vaults, W}

abbrev down : W
down = record (empty KvState.enabled) {
  redis = record (empty KvState.enabled).redis { up = false };
}

find_failure_example :
    find_resource_by_id store vaults pk down ≡ (err VaultDbError.unknown_error, down)
unfolding kv_wrapper run_operation redis_error_from_ref kv_settings vault_of_kv
    to_redis_failed_response
find_failure_example =
    find_failure store vaults pk down RedisError.unknown_result down.redis (ground arith)
      (ground arith) refl
