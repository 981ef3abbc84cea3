-- ===== src/Kv/Redis.antt =====
-- What the code relies on in the Redis library and in Redis, as documented: hash fields that are set,
-- set where absent, read and deleted, and streams that entries are appended to. It holds of a
-- reachable server and before a lifetime ends. None of it is code of the repository.
use hyperswitch_card_vault.Common.{
  ◌≡◌, ◌≢◌, Bool, true, ℕ, List, [], ◌∷◌, ◌++◌, Option, none, some, Text, ok, err,
}
use hyperswitch_card_vault.Kv.Errors.{RedisError}
use hyperswitch_card_vault.Kv.Wrapper.{RedisConn, Serde, HsetnxReply}

-- What a state of the server holds.
pub record RedisView (R : Type 0) : Type 0 where
  pub up : R → Bool
  pub cell : R → Text → Text → Option Text
  pub entries : R → Text → List (List (Text × Text))
  -- The state after a write of a cell, a delete of a cell, and an append.
  pub put : Text → Text → Text → R → R
  pub drop : Text → Text → R → R
  pub push : Text → List (Text × Text) → R → R

pub record IsRedis {R : Type 0} (V : RedisView R) (conn : RedisConn R) : Type 1 where
  pub up-put : (k f t : Text) (r : R) → V.up r ≡ true → V.up (V.put k f t r) ≡ true
  pub up-drop : (k f : Text) (r : R) → V.up r ≡ true → V.up (V.drop k f r) ≡ true
  pub up-push :
      (s : Text) (e : List (Text × Text)) (r : R) → V.up r ≡ true → V.up (V.push s e r) ≡ true
  pub cell-put : (k f t : Text) (r : R) → V.cell (V.put k f t r) k f ≡ some t
  pub cell-put-other :
      (k f t : Text) (r : R) (k' f' : Text) → k ≢ k' → V.cell (V.put k f t r) k' f' ≡ V.cell r k' f'
  pub cell-drop : (k f : Text) (r : R) → V.cell (V.drop k f r) k f ≡ none
  pub cell-push :
      (s : Text) (e : List (Text × Text)) (r : R) (k f : Text)
      → V.cell (V.push s e r) k f ≡ V.cell r k f
  pub entries-put : (k f t : Text) (r : R) (s : Text) → V.entries (V.put k f t r) s ≡ V.entries r s
  pub entries-drop : (k f : Text) (r : R) (s : Text) → V.entries (V.drop k f r) s ≡ V.entries r s
  pub entries-push :
      (s : Text) (e : List (Text × Text)) (r : R)
      → V.entries (V.push s e r) s ≡ V.entries r s ++ (e ∷ [])
  pub get-hit :
      {S : Type 0} (serde : Serde S) (k f t : Text) (v : S) (r : R)
      → V.up r ≡ true
      → V.cell r k f ≡ some t
      → serde.from_json t ≡ some v
      → conn.get_hash_field_and_deserialize serde k f r ≡ (ok v, r)
  pub get-miss :
      {S : Type 0} (serde : Serde S) (k f : Text) (r : R)
      → V.up r ≡ true
      → V.cell r k f ≡ none
      → conn.get_hash_field_and_deserialize serde k f r ≡ (err RedisError.not_found, r)
  pub set :
      (k f t : Text) (ttl : Option ℕ) (r : R)
      → V.up r ≡ true
      → conn.set_hash_fields k ((f, t) ∷ []) ttl r ≡ (ok tt, V.put k f t r)
  pub set_nx-new :
      {S : Type 0} (serde : Serde S) (k f t : Text) (v : S) (ttl : Option ℕ) (r : R)
      → V.up r ≡ true
      → V.cell r k f ≡ none
      → serde.to_json v ≡ some t
      → conn.serialize_and_set_hash_field_if_not_exist serde k f v ttl r
        ≡ (ok HsetnxReply.key_set, V.put k f t r)
  pub set_nx-old :
      {S : Type 0} (serde : Serde S) (k f t old : Text) (v : S) (ttl : Option ℕ) (r : R)
      → V.up r ≡ true
      → V.cell r k f ≡ some old
      → serde.to_json v ≡ some t
      → conn.serialize_and_set_hash_field_if_not_exist serde k f v ttl r
        ≡ (ok HsetnxReply.key_not_set, r)
  pub delete-hit :
      (k f t : Text) (r : R)
      → V.up r ≡ true
      → V.cell r k f ≡ some t
      → conn.delete_hash_fields k f r ≡ (ok 1, V.drop k f r)
  pub append :
      (s : Text) (e : List (Text × Text)) (r : R)
      → V.up r ≡ true
      → conn.stream_append_entry s e r ≡ (ok tt, V.push s e r)
