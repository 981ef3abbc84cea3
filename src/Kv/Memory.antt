-- ===== src/Kv/Memory.antt =====
-- A Redis in memory, for runs of the KV layer: it has the properties that the theorems ask of a Redis.
use hyperswitch_card_vault.Common.{
  same_text, same_text_refl, same_text_other, ℕ, ◌≡◌, refl, Bool, true, false, ◌&&◌, List, [], ◌∷◌,
  ◌++◌, Option, none, some, Text, ok, err, if◌then◌else◌, Exec,
}
use hyperswitch_card_vault.Kv.Errors.{RedisError}
use hyperswitch_card_vault.Kv.Wrapper.{RedisConn, Serde, HsetnxReply}
use hyperswitch_card_vault.Kv.Redis.{RedisView, IsRedis}

pub record Memory : Type 0 where
  pub up : Bool
  pub cell : Text → Text → Option Text
  pub entries : Text → List (List (Text × Text))

abbrev pub memory_put : Text → Text → Option Text → Memory → Memory
memory_put k f t r = record r {
  cell = λ k' f'. if same_text k k' && same_text f f' then t else r.cell k' f';
}

abbrev pub memory_push : Text → List (Text × Text) → Memory → Memory
memory_push s e r = record r {
  entries = λ s'. if same_text s s' then r.entries s' ++ (e ∷ []) else r.entries s';
}

abbrev pub memory_view : RedisView Memory
memory_view = record {
  up = λ r. r.up;
  cell = λ r. r.cell;
  entries = λ r. r.entries;
  put = λ k f t. memory_put k f (some t);
  drop = λ k f. memory_put k f none;
  push = memory_push;
}

module _ {S : Type 0} (serde : Serde S) where
  abbrev memory_get : Bool → Option Text → Exec Memory RedisError S
  memory_get false c r = (err RedisError.get_hash_field_failed, r)
  memory_get true none r = (err RedisError.not_found, r)
  memory_get true (some t) r = elim (serde.from_json t) [
    | some v ↦ (ok v, r)
    | none ↦ (err RedisError.json_deserialization_failed, r)
  ]

  abbrev memory_set_nx :
      Bool → Option Text → Option Text → Text → Text → Exec Memory RedisError HsetnxReply
  memory_set_nx false c t k f r = (err RedisError.set_hash_field_failed, r)
  memory_set_nx true c none k f r = (err RedisError.json_serialization_failed, r)
  memory_set_nx true (some old) (some t) k f r = (ok HsetnxReply.key_not_set, r)
  memory_set_nx true none (some t) k f r = (ok HsetnxReply.key_set, memory_put k f (some t) r)

  memory_get_lem :
      (t : Text) (v : S) (r : Memory)
      → serde.from_json t ≡ some v
      → memory_get true (some t) r ≡ (ok v, r)
  memory_get_lem t v r j = cc

abbrev memory_delete : Bool → Option Text → Text → Text → Exec Memory RedisError ℕ
memory_delete false c k f r = (err RedisError.delete_hash_field_failed, r)
memory_delete true none k f r = (ok 0, r)
memory_delete true (some old) k f r = (ok 1, memory_put k f none r)

abbrev set_all : Text → List (Text × Text) → Memory → Memory
set_all k [] r = r
set_all k ((f, t) ∷ rest) r = set_all k rest (memory_put k f (some t) r)

abbrev pub memory_conn : RedisConn Memory
memory_conn = record {
  set_hash_fields = λ k fields ttl r.
      if r.up then (ok tt, set_all k fields r) else (err RedisError.set_hash_failed, r);
  serialize_and_set_hash_field_if_not_exist =
      λ serde k f v ttl r. memory_set_nx serde r.up (r.cell k f) (serde.to_json v) k f r;
  get_hash_field_and_deserialize = λ serde k f r. memory_get serde r.up (r.cell k f) r;
  delete_hash_fields = λ k f r. memory_delete r.up (r.cell k f) k f r;
  stream_append_entry = λ s e r.
      if r.up then (ok tt, memory_push s e r) else (err RedisError.stream_append_failed, r);
}

pub memory_IsRedis : IsRedis memory_view memory_conn
memory_IsRedis = record {
  up-put = λ k f t r h. h;
  up-drop = λ k f r h. h;
  up-push = λ s e r h. h;
  cell-put = λ k f t r. simp (same_text_refl k, same_text_refl f);
  cell-put-other = λ k f t r k' f' ne. rw (same_text_other k k' ne);
  cell-drop = λ k f r. simp (same_text_refl k, same_text_refl f);
  cell-push = λ s e r k f. refl;
  entries-put = λ k f t r s. refl;
  entries-drop = λ k f r s. refl;
  entries-push = λ s e r. rw (same_text_refl s);
  get-hit = λ serde k f t v r up c j. simp (up, c) (memory_get_lem serde t v r j);
  get-miss = λ serde k f r up c. simp (up, c);
  set = λ k f t ttl r up. rw up;
  set_nx-new = λ serde k f t v ttl r up c e. simp (up, c, e);
  set_nx-old = λ serde k f t old v ttl r up c e. simp (up, c, e);
  delete-hit = λ k f t r up c. simp (up, c);
  append = λ s e r up. rw up;
}
