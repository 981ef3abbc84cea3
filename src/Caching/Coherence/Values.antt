-- ===== src/Caching/Coherence/Values.antt =====
-- The reads whose missing row is an error, which the merchants and the entities have:
-- storage/caching/merchant.rs and storage/caching/entity.rs.
use hyperswitch_card_vault.Common.{
  ◌≡◌, ◌∙◌, refl, ap, sym, Option, none, some, List, [], ◌∷◌, Result, ok, err, Exec, map_exec,
  map_ok,
}
use hyperswitch_card_vault.Caching.{
  Cache, inner, lookup, cache_data, cache_optional, or_find_optional, find_optional, cache_value,
  or_find, find_value, insert_value,
}
use hyperswitch_card_vault.Caching.Coherence.{
  IsCache, IsTable, Request, serve, serve_all, cached_read,
}

module _ {W C K V E N : Type 0} (cache : Cache C K V) (read_key : K → V → K) (find : K → Exec W E V)
    (insert : N → Exec W E V) (key_of : N → V → K) where
  unfoldable pub serve_value : Request K N → W × C → W × C
  serve_value (Request.find_row k) s = (find_value cache read_key find k s).1
  serve_value (Request.insert_row n) s = (insert_value cache (key_of n) (insert n) s).1
  serve_value (Request.other_find_row k) s = (inner (find k) s).1
  serve_value (Request.other_insert_row n) s = (inner (insert n) s).1

  unfoldable pub serve_values : List (Request K N) → W × C → W × C
  unfolding serve_value
  serve_values [] s = s
  serve_values (r ∷ rs) s = serve_values rs (serve_value r s)

  -- The same read, of a row or none.
  abbrev pub found : K → Exec W E (Option V)
  found k = map_exec some (find k)

  module _ (own_key : (k : K) (w : W) (v : V) → (find k w).0 ≡ ok v → read_key k v ≡ k) where
    cache_value-cache_optional :
        (k : K) (a : Result E V) (s : W × C)
        → ((v : V) → a ≡ ok v → read_key k v ≡ k)
        → (
          map_ok some (cache_value cache (read_key k) (a, s)).0,
          (cache_value cache (read_key k) (a, s)).1,
        )
          ≡ cache_optional cache k (map_ok some a, s)
    unfolding cache_value cache_optional
    cache_value-cache_optional k (ok v) s own =
        ap (λ k'. (ok (some v), cache_data cache k' v s)) (own v refl)
    cache_value-cache_optional k (err e) s own = refl

    or_find-or_find_optional :
        (k : K) (value : Option V) (s : W × C)
        → (
          map_ok some (or_find cache (read_key k) (find k) (value, s)).0,
          (or_find cache (read_key k) (find k) (value, s)).1,
        )
          ≡ or_find_optional cache k (found k) (value, s)
    unfolding or_find or_find_optional
    or_find-or_find_optional k (some v) s = refl
    or_find-or_find_optional k none s =
        cache_value-cache_optional k (find k s.0).0 ((find k s.0).1, s.1) (own_key k s.0)

    find_value-find_optional :
        (k : K) (s : W × C)
        → map_exec some (find_value cache read_key find k) s ≡ find_optional cache found k s
    unfolding find_value find_optional
    find_value-find_optional k s =
        or_find-or_find_optional k (lookup cache k s).0 (lookup cache k s).1

    serve_values-serve_all :
        (rs : List (Request K N)) (s : W × C)
        → serve_values rs s ≡ serve_all cache found insert key_of rs s
    unfolding serve_values serve_value serve_all serve
    serve_values-serve_all [] s = refl
    serve_values-serve_all (Request.find_row k ∷ rs) s =
        ap (serve_values rs) (ap (λ a. a.1) (find_value-find_optional k s))
        ∙ serve_values-serve_all rs _
    serve_values-serve_all (Request.insert_row n ∷ rs) s = serve_values-serve_all rs _
    serve_values-serve_all (Request.other_find_row k ∷ rs) s = serve_values-serve_all rs _
    serve_values-serve_all (Request.other_insert_row n ∷ rs) s = serve_values-serve_all rs _

    -- On a cache that may drop what it holds and a table whose rows stay and have the key that they are
    -- read by, from a cache that holds nothing and after any reads and inserts, through the cache or past
    -- it: a read by `find_value` that gives a row gives the one that the table has.
    pub cached_value :
        (Holds : C → K → V → Type 0)
        → IsCache cache Holds
        → (rows : W → K → Option V) → IsTable found insert key_of rows
        → (rs : List (Request K N)) (s : W × C) (k : K) (v : V)
        → ((k' : K) (u : V) → ¬ Holds s.1 k' u)
        → (find_value cache read_key find k (serve_values rs s)).0 ≡ ok v
        → rows (serve_values rs s).0 k ≡ some v
    cached_value Holds is_cache rows table rs s k v fresh h =
        let served = serve_values-serve_all rs s in
        let read =
          ap (λ a. a.0) (sym (find_value-find_optional k (serve_values rs s)))
          ∙ ap (map_ok some) h in
        ap (λ t. rows t.0 k) served
        ∙ cached_read cache Holds is_cache found insert key_of rows table rs s k (some v) fresh
            (ap (λ t. (find_optional cache found k t).0) (sym served) ∙ read)
