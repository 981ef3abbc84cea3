-- ===== src/Caching/Tests.antt =====
-- Reads through a cache of one entry, on a table of one row.
use hyperswitch_card_vault.Common.{
  ◌≡◌, inl, refl, ℕ, [], ◌∷◌, Option, none, some, Result, ok, err, map_ok, Exec,
}
use hyperswitch_card_vault.Caching.{
  Cache, find_optional, find_value, or_find, or_find_optional, lookup, cache_data, insert_value,
  cache_value,
}
use hyperswitch_card_vault.Caching.Coherence.Values.{found, serve_value, serve_values, cached_value}
use hyperswitch_card_vault.Caching.Coherence.{
  IsCache, IsTable, Request, serve, serve_all, cached_read,
}

abbrev one_entry : Cache (Option ℕ) (Unit {0}) ℕ
one_entry = record { get = λ k c. (c, c); insert = λ k v c. some v }

abbrev Holds : Option ℕ → Unit {0} → ℕ → Type 0
Holds c k v = c ≡ some v

one_entry-IsCache : IsCache one_entry Holds
one_entry-IsCache = record {
  get_holds = λ c k v h. h;
  get_keeps = λ c k k' v h. h;
  insert_holds = λ c k k' v v' h. inl (refl, cc);
}

abbrev find : Unit {0} → Exec (Option ℕ) (Unit {0}) (Option ℕ)
find k w = (ok w, w)

abbrev insert_row : ℕ → Option ℕ → Result (Unit {0}) ℕ × Option ℕ
insert_row n none = (ok n, some n)
insert_row n (some m) = (err tt, some m)

abbrev insert : ℕ → Exec (Option ℕ) (Unit {0}) ℕ
insert n w = insert_row n w

abbrev rows : Option ℕ → Unit {0} → Option ℕ
rows w k = w

row_lem : (n : ℕ) (w : Option ℕ) (v : ℕ) → (insert_row n w).0 ≡ ok v → (insert_row n w).1 ≡ some v
row_lem n none v h = cc
row_lem n (some m) v h = absurd cc

keeps_lem : (n : ℕ) (w : Option ℕ) (v : ℕ) → w ≡ some v → (insert_row n w).1 ≡ some v
keeps_lem n none v h = absurd cc
keeps_lem n (some m) v h = h

table : IsTable find insert (λ n v. tt) rows
table = record {
  find_row = λ k w r h. cc;
  find_keeps = λ k k' w. refl;
  insert_row = row_lem;
  insert_keeps = λ n w k v h. keeps_lem n w v h;
}

-- An insert of another process, a second one through the cache that fails, and two reads.
abbrev served : Option ℕ × Option ℕ
served =
    serve_all one_entry find insert (λ n v. tt)
      (Request.other_insert_row 3
        ∷ Request.insert_row 4
        ∷ Request.other_find_row tt
        ∷ Request.find_row tt
        ∷ [])
      (none, none)

cached_read_example : rows served.0 tt ≡ some 3
unfolding find_optional or_find_optional lookup serve serve_all insert_value cache_value cache_data
cached_read_example =
    cached_read one_entry Holds one_entry-IsCache find insert (λ n v. tt) rows table
      (Request.other_insert_row 3
        ∷ Request.insert_row 4
        ∷ Request.other_find_row tt
        ∷ Request.find_row tt
        ∷ [])
      (none, none) tt (some 3) (λ k v. λ h. cc) refl

-- The same table, where a missing row is an error.
abbrev required_row : Option ℕ → Result (Unit {0}) ℕ
required_row none = err tt
required_row (some n) = ok n

abbrev find_required : Unit {0} → Exec (Option ℕ) (Unit {0}) ℕ
find_required k w = (required_row w, w)

abbrev answer : Option ℕ → Result (Unit {0}) (Option ℕ)
answer r = ok r

required_row_lem : (w r : Option ℕ) → map_ok some (required_row w) ≡ answer r → w ≡ r
required_row_lem none r h = absurd cc
required_row_lem (some n) r h = cc

required_table :
    IsTable (found one_entry (λ k v. k) find_required insert (λ n v. tt)) insert (λ n v. tt) rows
required_table = record {
  find_row = λ k w r h. required_row_lem w r h;
  find_keeps = λ k k' w. refl;
  insert_row = row_lem;
  insert_keeps = λ n w k v h. keeps_lem n w v h;
}

abbrev values_served : Option ℕ × Option ℕ
values_served =
    serve_values one_entry (λ k v. k) find_required insert (λ n v. tt)
      (Request.find_row tt ∷ Request.other_insert_row 3 ∷ Request.find_row tt ∷ []) (none, none)

cached_value_example : rows values_served.0 tt ≡ some 3
unfolding find_value or_find lookup serve_value serve_values insert_value cache_value cache_data
cached_value_example =
    cached_value one_entry (λ k v. k) find_required insert (λ n v. tt) (λ k w v h. refl) Holds
      one_entry-IsCache rows required_table
      (Request.find_row tt ∷ Request.other_insert_row 3 ∷ Request.find_row tt ∷ []) (none, none) tt
      3 (λ k v. λ h. cc) refl
