-- ===== src/Kv/Errors.antt =====
-- error/kv.rs, the error conversions of storage/kv/impls.rs, and those of storage/kv/wrapper.rs.
use hyperswitch_card_vault.Common.{◌++◌, Text, codes, String}
use hyperswitch_card_vault.Error.Types.{
  VaultDbError, HashDbError, FingerprintDbError, ReverseLookupDbError,
}

pub data KvError : Type 0 where
  duplicate_value : Text → KvError
  backend : KvError
  value_not_found : Text → KvError
  serialization_failed : KvError

-- `RedisError` of the Redis library, as wrapper.rs and error/kv.rs list it.
pub data RedisError : Type 0 where
  not_found set_nx_failed set_add_members_failed set_failed set_ex_failed set_expiry_failed
        get_failed delete_failed stream_append_failed stream_read_failed get_length_failed
        stream_delete_failed stream_trim_failed stream_acknowledge_failed
        stream_empty_or_not_available consumer_group_create_failed consumer_group_destroy_failed
        consumer_group_remove_consumer_failed consumer_group_set_id_failed
        consumer_group_claim_failed json_serialization_failed json_deserialization_failed
        set_hash_failed set_hash_field_failed delete_hash_field_failed get_hash_field_failed
        invalid_redis_entry_id redis_connection_error subscribe_error publish_error on_message_error
        unknown_result append_elements_to_list_failed get_list_elements_failed
        get_list_length_failed pop_list_elements_failed increment_hash_field_failed
        script_execution_failed :
      RedisError
  invalid_configuration : String → RedisError

-- A library error without its payload: three kinds keep their name, all else is `UnknownResult`.
unfoldable pub redis_error_from_ref : RedisError → RedisError
redis_error_from_ref RedisError.not_found = RedisError.not_found
redis_error_from_ref RedisError.set_nx_failed = RedisError.set_nx_failed
redis_error_from_ref RedisError.set_add_members_failed = RedisError.set_add_members_failed
redis_error_from_ref (RedisError.invalid_configuration _) = RedisError.unknown_result
redis_error_from_ref RedisError.set_failed = RedisError.unknown_result
redis_error_from_ref RedisError.set_ex_failed = RedisError.unknown_result
redis_error_from_ref RedisError.set_expiry_failed = RedisError.unknown_result
redis_error_from_ref RedisError.get_failed = RedisError.unknown_result
redis_error_from_ref RedisError.delete_failed = RedisError.unknown_result
redis_error_from_ref RedisError.stream_append_failed = RedisError.unknown_result
redis_error_from_ref RedisError.stream_read_failed = RedisError.unknown_result
redis_error_from_ref RedisError.get_length_failed = RedisError.unknown_result
redis_error_from_ref RedisError.stream_delete_failed = RedisError.unknown_result
redis_error_from_ref RedisError.stream_trim_failed = RedisError.unknown_result
redis_error_from_ref RedisError.stream_acknowledge_failed = RedisError.unknown_result
redis_error_from_ref RedisError.stream_empty_or_not_available = RedisError.unknown_result
redis_error_from_ref RedisError.consumer_group_create_failed = RedisError.unknown_result
redis_error_from_ref RedisError.consumer_group_destroy_failed = RedisError.unknown_result
redis_error_from_ref RedisError.consumer_group_remove_consumer_failed = RedisError.unknown_result
redis_error_from_ref RedisError.consumer_group_set_id_failed = RedisError.unknown_result
redis_error_from_ref RedisError.consumer_group_claim_failed = RedisError.unknown_result
redis_error_from_ref RedisError.json_serialization_failed = RedisError.unknown_result
redis_error_from_ref RedisError.json_deserialization_failed = RedisError.unknown_result
redis_error_from_ref RedisError.set_hash_failed = RedisError.unknown_result
redis_error_from_ref RedisError.set_hash_field_failed = RedisError.unknown_result
redis_error_from_ref RedisError.delete_hash_field_failed = RedisError.unknown_result
redis_error_from_ref RedisError.get_hash_field_failed = RedisError.unknown_result
redis_error_from_ref RedisError.invalid_redis_entry_id = RedisError.unknown_result
redis_error_from_ref RedisError.redis_connection_error = RedisError.unknown_result
redis_error_from_ref RedisError.subscribe_error = RedisError.unknown_result
redis_error_from_ref RedisError.publish_error = RedisError.unknown_result
redis_error_from_ref RedisError.on_message_error = RedisError.unknown_result
redis_error_from_ref RedisError.unknown_result = RedisError.unknown_result
redis_error_from_ref RedisError.append_elements_to_list_failed = RedisError.unknown_result
redis_error_from_ref RedisError.get_list_elements_failed = RedisError.unknown_result
redis_error_from_ref RedisError.get_list_length_failed = RedisError.unknown_result
redis_error_from_ref RedisError.pop_list_elements_failed = RedisError.unknown_result
redis_error_from_ref RedisError.increment_hash_field_failed = RedisError.unknown_result
redis_error_from_ref RedisError.script_execution_failed = RedisError.unknown_result

-- RedisErrorExt
unfoldable pub to_redis_failed_response : RedisError → Text → KvError
to_redis_failed_response RedisError.not_found key =
    KvError.value_not_found (codes "Data does not exist for key " ++ key)
to_redis_failed_response RedisError.set_nx_failed key = KvError.duplicate_value key
to_redis_failed_response RedisError.set_add_members_failed key = KvError.duplicate_value key
to_redis_failed_response RedisError.json_serialization_failed key = KvError.serialization_failed
to_redis_failed_response RedisError.json_deserialization_failed key = KvError.serialization_failed
to_redis_failed_response (RedisError.invalid_configuration _) key = KvError.backend
to_redis_failed_response RedisError.set_failed key = KvError.backend
to_redis_failed_response RedisError.set_ex_failed key = KvError.backend
to_redis_failed_response RedisError.set_expiry_failed key = KvError.backend
to_redis_failed_response RedisError.get_failed key = KvError.backend
to_redis_failed_response RedisError.delete_failed key = KvError.backend
to_redis_failed_response RedisError.stream_append_failed key = KvError.backend
to_redis_failed_response RedisError.stream_read_failed key = KvError.backend
to_redis_failed_response RedisError.get_length_failed key = KvError.backend
to_redis_failed_response RedisError.stream_delete_failed key = KvError.backend
to_redis_failed_response RedisError.stream_trim_failed key = KvError.backend
to_redis_failed_response RedisError.stream_acknowledge_failed key = KvError.backend
to_redis_failed_response RedisError.stream_empty_or_not_available key = KvError.backend
to_redis_failed_response RedisError.consumer_group_create_failed key = KvError.backend
to_redis_failed_response RedisError.consumer_group_destroy_failed key = KvError.backend
to_redis_failed_response RedisError.consumer_group_remove_consumer_failed key = KvError.backend
to_redis_failed_response RedisError.consumer_group_set_id_failed key = KvError.backend
to_redis_failed_response RedisError.consumer_group_claim_failed key = KvError.backend
to_redis_failed_response RedisError.set_hash_failed key = KvError.backend
to_redis_failed_response RedisError.set_hash_field_failed key = KvError.backend
to_redis_failed_response RedisError.delete_hash_field_failed key = KvError.backend
to_redis_failed_response RedisError.get_hash_field_failed key = KvError.backend
to_redis_failed_response RedisError.invalid_redis_entry_id key = KvError.backend
to_redis_failed_response RedisError.redis_connection_error key = KvError.backend
to_redis_failed_response RedisError.subscribe_error key = KvError.backend
to_redis_failed_response RedisError.publish_error key = KvError.backend
to_redis_failed_response RedisError.on_message_error key = KvError.backend
to_redis_failed_response RedisError.unknown_result key = KvError.backend
to_redis_failed_response RedisError.append_elements_to_list_failed key = KvError.backend
to_redis_failed_response RedisError.get_list_elements_failed key = KvError.backend
to_redis_failed_response RedisError.get_list_length_failed key = KvError.backend
to_redis_failed_response RedisError.pop_list_elements_failed key = KvError.backend
to_redis_failed_response RedisError.increment_hash_field_failed key = KvError.backend
to_redis_failed_response RedisError.script_execution_failed key = KvError.backend

unfoldable pub reverse_lookup_of_kv : KvError → ReverseLookupDbError
reverse_lookup_of_kv (KvError.duplicate_value _) = ReverseLookupDbError.duplicate
reverse_lookup_of_kv (KvError.value_not_found _) = ReverseLookupDbError.not_found_error
reverse_lookup_of_kv KvError.backend = ReverseLookupDbError.unknown_error
reverse_lookup_of_kv KvError.serialization_failed = ReverseLookupDbError.unknown_error

unfoldable pub hash_of_kv : KvError → HashDbError
hash_of_kv (KvError.duplicate_value _) = HashDbError.duplicate
hash_of_kv (KvError.value_not_found _) = HashDbError.db_filter_error
hash_of_kv KvError.backend = HashDbError.unknown_error
hash_of_kv KvError.serialization_failed = HashDbError.unknown_error

unfoldable pub vault_of_kv : KvError → VaultDbError
vault_of_kv (KvError.duplicate_value _) = VaultDbError.duplicate
vault_of_kv (KvError.value_not_found _) = VaultDbError.not_found_error
vault_of_kv KvError.backend = VaultDbError.unknown_error
vault_of_kv KvError.serialization_failed = VaultDbError.unknown_error

unfoldable pub fingerprint_of_kv : KvError → FingerprintDbError
fingerprint_of_kv (KvError.duplicate_value _) = FingerprintDbError.duplicate
fingerprint_of_kv (KvError.value_not_found _) = FingerprintDbError.db_filter_error
fingerprint_of_kv KvError.backend = FingerprintDbError.unknown_error
fingerprint_of_kv KvError.serialization_failed = FingerprintDbError.unknown_error
