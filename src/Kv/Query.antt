-- ===== src/Kv/Query.antt =====
-- storage/kv/serializable_query.rs: the SQL statement that the drainer replays. Diesel builds the
-- statement and its binds; a `QueryFragment` is what it answers.
use hyperswitch_card_vault.Common.{
  ℕ, Bool, List, [], ◌∷◌, Option, none, some, Text, codes, Result, ok, err,
}
use hyperswitch_card_vault.Storage.Rows.{Bytes}
use hyperswitch_card_vault.Kv.Errors.{KvError}
use hyperswitch_card_vault.Kv.Keys.{decimal}

pub data DatabaseOperation : Type 0 where
  insert update delete : DatabaseOperation

-- What diesel answers for a query; `none` is its error.
pub record QueryFragment : Type 0 where
  pub to_sql : Option Text
  pub is_safe_to_cache_prepared : Option Bool
  pub collect_binds : Option (List (Option Bytes) × List (ℕ × ℕ))

pub record SerializableQuery : Type 0 where
  pub sql : Text
  pub binds : List (Option Bytes)
  pub metadata : List (ℕ × ℕ)
  pub safe_to_cache_prepared : Bool
  pub entity_type : Text
  pub operation : DatabaseOperation

unfoldable pub from_query :
    QueryFragment → Text → DatabaseOperation → Result KvError SerializableQuery
from_query query entity_type operation = elim query.to_sql [
  | none ↦ err KvError.serialization_failed
  | some sql ↦ elim query.is_safe_to_cache_prepared [
    | none ↦ err KvError.serialization_failed
    | some safe ↦ elim query.collect_binds [
      | none ↦ err KvError.serialization_failed
      | some (binds, metadata) ↦ ok (record {
        sql = sql;
        binds = binds;
        metadata = metadata;
        safe_to_cache_prepared = safe;
        entity_type = entity_type;
        operation = operation;
      })
    ]
  ]
]

-- The three generators, on the query that diesel builds for the row or the key.
unfoldable pub generate_insert_query : Text → QueryFragment → Result KvError SerializableQuery
unfolding from_query
generate_insert_query entity_type query = from_query query entity_type DatabaseOperation.insert

unfoldable pub generate_delete_query : Text → QueryFragment → Result KvError SerializableQuery
unfolding from_query
generate_delete_query entity_type query = from_query query entity_type DatabaseOperation.delete

unfoldable pub generate_update_query : Text → QueryFragment → Result KvError SerializableQuery
unfolding from_query
generate_update_query entity_type query = from_query query entity_type DatabaseOperation.update

-- The entry of the stream. The JSON text of the query, or none, and the time are arguments.
unfoldable pub to_field_value_pairs :
    (SerializableQuery → Option Text)
    → ℕ
    → SerializableQuery
    → Text
    → Text
    → Result KvError (List (Text × Text))
to_field_value_pairs query_json pushed_at self request_id global_id = elim (query_json self) [
  | none ↦ err KvError.serialization_failed
  | some query ↦ ok (
      (codes "query", query)
      ∷ (codes "global_id", global_id)
      ∷ (codes "request_id", request_id)
      ∷ (codes "pushed_at", decimal pushed_at)
      ∷ [])
]
