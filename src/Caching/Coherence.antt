-- ===== src/Caching/Coherence.antt =====
-- What is read through a cache is what the store has: storage/caching.rs.
pub mod Values
use hyperswitch_card_vault.Common.{
  ◌≡◌, ◌∙◌, ◌⊎◌, inl, inr, refl, sym, ap, Option, none, some, List, [], ◌∷◌, Result, ok, err, Exec,
  arith,
}
use hyperswitch_card_vault.Caching.{
  Cache, inner, lookup, cache_data, cache_optional, or_find_optional, find_optional, cache_value,
  insert_value,
}

-- A cache gives back values that were inserted under the key, or nothing: `Holds c k v` says that `c` may
-- give `v` for `k`.
pub record IsCache {C K V : Type 0} (cache : Cache C K V) (Holds : C → K → V → Type 0)
    : Type 0 where
  pub get_holds : (c : C) (k : K) (v : V) → (cache.get k c).0 ≡ some v → Holds c k v
  pub get_keeps : (c : C) (k k' : K) (v : V) → Holds (cache.get k c).1 k' v → Holds c k' v
  pub insert_holds :
      (c : C) (k k' : K) (v v' : V)
      → Holds (cache.insert k v c) k' v'
      → ((k ≡ k') × (v ≡ v')) ⊎ Holds c k' v'

-- A table whose rows stay: a read that gives an answer gives the row and changes no row, an insert that
-- succeeds makes the row that it answers, under its key, and no call removes or changes a row.
pub record IsTable {W K V E N : Type 0} (find : K → Exec W E (Option V)) (insert : N → Exec W E V)
    (key_of : N → V → K) (rows : W → K → Option V) : Type 0 where
  pub find_row : (k : K) (w : W) (r : Option V) → (find k w).0 ≡ ok r → rows w k ≡ r
  pub find_keeps : (k k' : K) (w : W) → rows (find k w).1 k' ≡ rows w k'
  pub insert_row :
      (n : N) (w : W) (v : V) → (insert n w).0 ≡ ok v → rows (insert n w).1 (key_of n v) ≡ some v
  pub insert_keeps :
      (n : N) (w : W) (k : K) (v : V) → rows w k ≡ some v → rows (insert n w).1 k ≡ some v

-- The reads and inserts of callers: through the cache, or of another process on the table itself.
pub data Request (K N : Type 0) : Type 0 where
  find_row : K → Request K N
  insert_row : N → Request K N
  other_find_row : K → Request K N
  other_insert_row : N → Request K N

module _ {W C K V E N : Type 0} (cache : Cache C K V) (find : K → Exec W E (Option V))
    (insert : N → Exec W E V) (key_of : N → V → K) where
  unfoldable pub serve : Request K N → W × C → W × C
  serve (find_row k) s = (find_optional cache find k s).1
  serve (insert_row n) s = (insert_value cache (key_of n) (insert n) s).1
  serve (other_find_row k) s = (inner (find k) s).1
  serve (other_insert_row n) s = (inner (insert n) s).1

  unfoldable pub serve_all : List (Request K N) → W × C → W × C
  unfolding serve
  serve_all [] s = s
  serve_all (r ∷ rs) s = serve_all rs (serve r s)

module _ {W C K V E N : Type 0} (cache : Cache C K V) (Holds : C → K → V → Type 0)
    (is_cache : IsCache cache Holds) (find : K → Exec W E (Option V)) (insert : N → Exec W E V)
    (key_of : N → V → K) (rows : W → K → Option V) (table : IsTable find insert key_of rows) where
  -- What the cache may give is in the table.
  abbrev pub Coherent : W × C → Type 0
  Coherent s = (k : K) (v : V) → Holds s.1 k v → rows s.0 k ≡ some v

  cached-Coherent :
      (w : W) (c : C) (k : K) (v : V)
      → Coherent (w, c)
      → rows w k ≡ some v
      → Coherent (cache_data cache k v (w, c))
  unfolding cache_data
  cached-Coherent w c k v coherent there k' v' h = elim (is_cache.insert_holds c k k' v v' h) [
    | inl (same, value) ↦ ap (rows w) (sym same) ∙ there ∙ ap some value
    | inr old ↦ coherent k' v' old
  ]

  after_read-Coherent :
      (k : K) (w : W) (c : C) (a : Result E (Option V))
      → Coherent (w, c)
      → ((r : Option V) → a ≡ ok r → rows w k ≡ r)
      → Coherent (cache_optional cache k (a, (w, c))).1
  unfolding cache_optional
  after_read-Coherent k w c (ok none) coherent row = coherent
  after_read-Coherent k w c (ok (some v)) coherent row =
      cached-Coherent w c k v coherent (row (some v) refl)
  after_read-Coherent k w c (err e) coherent row = coherent

  row_after : (k : K) (w : W) (r : Option V) → (find k w).0 ≡ ok r → rows (find k w).1 k ≡ r
  row_after k w r h = table.find_keeps k k w ∙ table.find_row k w r h

  after_get-Coherent :
      (k : K) (w : W) (c : C) (value : Option V)
      → Coherent (w, c)
      → Coherent (or_find_optional cache k (find k) (value, (w, c))).1
  unfolding or_find_optional
  after_get-Coherent k w c (some v) coherent = coherent
  after_get-Coherent k w c none coherent =
      after_read-Coherent k (find k w).1 c (find k w).0
        (λ k' v h. table.find_keeps k k' w ∙ coherent k' v h) (row_after k w)

  find-Coherent :
      (k : K) (w : W) (c : C) → Coherent (w, c) → Coherent (find_optional cache find k (w, c)).1
  unfolding find_optional lookup
  find-Coherent k w c coherent =
      after_get-Coherent k w (cache.get k c).1 (cache.get k c).0
        (λ k' v h. coherent k' v (is_cache.get_keeps c k k' v h))

  after_insert-Coherent :
      (n : N) (w : W) (c : C) (a : Result E V)
      → Coherent (w, c)
      → ((v : V) → a ≡ ok v → rows w (key_of n v) ≡ some v)
      → Coherent (cache_value cache (key_of n) (a, (w, c))).1
  unfolding cache_value
  after_insert-Coherent n w c (ok v) coherent row =
      cached-Coherent w c (key_of n v) v coherent (row v refl)
  after_insert-Coherent n w c (err e) coherent row = coherent

  insert-Coherent :
      (n : N) (w : W) (c : C)
      → Coherent (w, c)
      → Coherent (insert_value cache (key_of n) (insert n) (w, c)).1
  unfolding insert_value
  insert-Coherent n w c coherent =
      after_insert-Coherent n (insert n w).1 c (insert n w).0
        (λ k v h. table.insert_keeps n w k v (coherent k v h)) (table.insert_row n w)

  serve_all-Coherent :
      (rs : List (Request K N)) (s : W × C)
      → Coherent s
      → Coherent (serve_all cache find insert key_of rs s)
  unfolding serve_all serve
  serve_all-Coherent [] s h = h
  serve_all-Coherent (find_row k ∷ rs) s h = serve_all-Coherent rs _ (find-Coherent k s.0 s.1 h)
  serve_all-Coherent (insert_row n ∷ rs) s h = serve_all-Coherent rs _ (insert-Coherent n s.0 s.1 h)
  serve_all-Coherent (other_find_row k ∷ rs) s h =
      serve_all-Coherent rs _ (λ k' v held. table.find_keeps k k' s.0 ∙ h k' v held)
  serve_all-Coherent (other_insert_row n ∷ rs) s h =
      serve_all-Coherent rs _ (λ k' v held. table.insert_keeps n s.0 k' v (h k' v held))

  after_read_row :
      (k : K) (w : W) (c : C) (a : Result E (Option V)) (r : Option V)
      → (cache_optional cache k (a, (w, c))).0 ≡ ok r
      → a ≡ ok r
  unfolding cache_optional
  after_read_row k w c (ok none) r h = h
  after_read_row k w c (ok (some v)) r h = h
  after_read_row k w c (err e) r h = h

  after_get_row :
      (k : K) (w : W) (c : C) (value r : Option V)
      → ((v : V) → value ≡ some v → rows w k ≡ some v)
      → (or_find_optional cache k (find k) (value, (w, c))).0 ≡ ok r
      → rows w k ≡ r
  unfolding or_find_optional
  after_get_row k w c (some v) r held h = held v refl ∙ ground arith
  after_get_row k w c none r held h =
      table.find_row k w r (after_read_row k (find k w).1 c (find k w).0 r h)

  -- On a cache that may drop what it holds and a table whose rows stay, from a cache that holds nothing
  -- and after any reads and inserts, through the cache or past it: a read by `find_optional` that gives
  -- an answer gives what the table has, a row or none.
  pub cached_read :
      (rs : List (Request K N)) (s : W × C) (k : K) (r : Option V)
      → ((k' : K) (v : V) → ¬ Holds s.1 k' v)
      → (find_optional cache find k (serve_all cache find insert key_of rs s)).0 ≡ ok r
      → rows (serve_all cache find insert key_of rs s).0 k ≡ r
  unfolding find_optional lookup
  cached_read rs s k r fresh h =
      let coherent = serve_all-Coherent rs s (λ k' v held. absurd (fresh k' v held)) in
      after_get_row k (serve_all cache find insert key_of rs s).0
        (cache.get k (serve_all cache find insert key_of rs s).1).1
        (cache.get k (serve_all cache find insert key_of rs s).1).0 r
        (λ v given.
          coherent k v (is_cache.get_holds (serve_all cache find insert key_of rs s).1 k v given))
        h
