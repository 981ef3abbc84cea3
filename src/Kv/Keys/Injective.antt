-- ===== src/Kv/Keys/Injective.antt =====
-- storage/kv/partition_key.rs: which keys share a name in Redis.
use hyperswitch_card_vault.Common.{ℕ, arith, ◌≡◌, ◌≢◌, refl, ap, [], ◌∷◌, ◌++◌, Text, codes, All}
use mathlib.Core.List.{append_cancel_left, append_assoc}
use hyperswitch_card_vault.Storage.Rows.{Bytes}
use hyperswitch_card_vault.Kv.Keys.{PartitionKey, to_string}

-- No separator `_`.
abbrev pub IsPlain : Text → Type 0
IsPlain t = All (λ c. c ≢ 95) t

abbrev head : Text → ℕ
head [] = 0
head (c ∷ cs) = c

split_at_separator :
    (a b c d : Text) → IsPlain a → IsPlain c → a ++ (95 ∷ b) ≡ c ++ (95 ∷ d) → (a ≡ c) × (b ≡ d)
split_at_separator [] b [] d p q h = (refl, cc)
split_at_separator [] b (y ∷ c) d p q h = absurd (q.0 cc)
split_at_separator (x ∷ a) b [] d p q h = absurd (p.0 cc)
split_at_separator (x ∷ a) b (y ∷ c) d p q h =
    let (tail, rest) = split_at_separator a b c d p.1 q.1 cc in (cc, rest)

-- The keys that stand for a row, whose parts before the last have no `_`.
unfoldable pub IsSeparable : PartitionKey → Type 0
IsSeparable (PartitionKey.combination_key _) = ⊥
IsSeparable (PartitionKey.fingerprint _) = Unit
IsSeparable (PartitionKey.hash_table _) = Unit
IsSeparable (PartitionKey.locker merchant_id customer_id _) =
    IsPlain merchant_id × IsPlain customer_id
IsSeparable (PartitionKey.reverse_lookup _) = Unit
IsSeparable (PartitionKey.vault entity_id _) = IsPlain entity_id

module _ (hex_encode : Bytes → Text) where
  locker_injective :
      (m c l m' c' l' : Text)
      → IsPlain m × IsPlain c
      → IsPlain m' × IsPlain c'
      → to_string hex_encode (PartitionKey.locker m c l)
        ≡ to_string hex_encode (PartitionKey.locker m' c' l')
      → PartitionKey.locker m c l ≡ PartitionKey.locker m' c' l'
  unfolding to_string
  locker_injective m c l m' c' l' p q h =
      let (merchant, rest) =
        split_at_separator m (c ++ (95 ∷ l)) m' (c' ++ (95 ∷ l')) p.0 q.0
          (append_cancel_left (codes "locker_") _ _ h) in
      let (customer, last) = split_at_separator c l c' l' p.1 q.1 rest in cc

  vault_injective :
      (e v e' v' : Text)
      → IsPlain e
      → IsPlain e'
      → to_string hex_encode (PartitionKey.vault e v)
        ≡ to_string hex_encode (PartitionKey.vault e' v')
      → PartitionKey.vault e v ≡ PartitionKey.vault e' v'
  unfolding to_string
  vault_injective e v e' v' p q h =
      let (entity, last) =
        split_at_separator e v e' v' p q (append_cancel_left (codes "vault_") _ _ h) in
      cc

  -- Two keys of rows with the same text in Redis are the same key, where hexadecimal text determines
  -- the bytes, and no part before the last of a locker's or a vault's key has the character `_`.
  pub to_string_injective :
      ((a b : Bytes) → hex_encode a ≡ hex_encode b → a ≡ b)
      → (key other : PartitionKey) → IsSeparable key
      → IsSeparable other
      → to_string hex_encode key ≡ to_string hex_encode other
      → key ≡ other
  unfolding to_string IsSeparable
  to_string_injective hex (PartitionKey.fingerprint a) (PartitionKey.fingerprint a') p q h =
      ap PartitionKey.fingerprint (hex a a' (append_cancel_left (codes "fingerprint_") _ _ h))
  to_string_injective hex (PartitionKey.fingerprint a) (PartitionKey.hash_table a') p q h =
      absurd (omega (arith, ap head h))
  to_string_injective hex (PartitionKey.fingerprint a) (PartitionKey.locker m' c' l') p q h =
      absurd (omega (arith, ap head h))
  to_string_injective hex (PartitionKey.fingerprint a) (PartitionKey.reverse_lookup a') p q h =
      absurd (omega (arith, ap head h))
  to_string_injective hex (PartitionKey.fingerprint a) (PartitionKey.vault e' v') p q h =
      absurd (omega (arith, ap head h))
  to_string_injective hex (PartitionKey.hash_table a) (PartitionKey.fingerprint a') p q h =
      absurd (omega (arith, ap head h))
  to_string_injective hex (PartitionKey.hash_table a) (PartitionKey.hash_table a') p q h =
      ap PartitionKey.hash_table (hex a a' (append_cancel_left (codes "hash_table_") _ _ h))
  to_string_injective hex (PartitionKey.hash_table a) (PartitionKey.locker m' c' l') p q h =
      absurd (omega (arith, ap head h))
  to_string_injective hex (PartitionKey.hash_table a) (PartitionKey.reverse_lookup a') p q h =
      absurd (omega (arith, ap head h))
  to_string_injective hex (PartitionKey.hash_table a) (PartitionKey.vault e' v') p q h =
      absurd (omega (arith, ap head h))
  to_string_injective hex (PartitionKey.locker m c l) (PartitionKey.fingerprint a') p q h =
      absurd (omega (arith, ap head h))
  to_string_injective hex (PartitionKey.locker m c l) (PartitionKey.hash_table a') p q h =
      absurd (omega (arith, ap head h))
  to_string_injective hex (PartitionKey.locker m c l) (PartitionKey.locker m' c' l') p q h =
      locker_injective m c l m' c' l' p q h
  to_string_injective hex (PartitionKey.locker m c l) (PartitionKey.reverse_lookup a') p q h =
      absurd (omega (arith, ap head h))
  to_string_injective hex (PartitionKey.locker m c l) (PartitionKey.vault e' v') p q h =
      absurd (omega (arith, ap head h))
  to_string_injective hex (PartitionKey.reverse_lookup a) (PartitionKey.fingerprint a') p q h =
      absurd (omega (arith, ap head h))
  to_string_injective hex (PartitionKey.reverse_lookup a) (PartitionKey.hash_table a') p q h =
      absurd (omega (arith, ap head h))
  to_string_injective hex (PartitionKey.reverse_lookup a) (PartitionKey.locker m' c' l') p q h =
      absurd (omega (arith, ap head h))
  to_string_injective hex (PartitionKey.reverse_lookup a) (PartitionKey.reverse_lookup a') p q h =
      ap PartitionKey.reverse_lookup (append_cancel_left (codes "reverse_lookup_") _ _ h)
  to_string_injective hex (PartitionKey.reverse_lookup a) (PartitionKey.vault e' v') p q h =
      absurd (omega (arith, ap head h))
  to_string_injective hex (PartitionKey.vault e v) (PartitionKey.fingerprint a') p q h =
      absurd (omega (arith, ap head h))
  to_string_injective hex (PartitionKey.vault e v) (PartitionKey.hash_table a') p q h =
      absurd (omega (arith, ap head h))
  to_string_injective hex (PartitionKey.vault e v) (PartitionKey.locker m' c' l') p q h =
      absurd (omega (arith, ap head h))
  to_string_injective hex (PartitionKey.vault e v) (PartitionKey.reverse_lookup a') p q h =
      absurd (omega (arith, ap head h))
  to_string_injective hex (PartitionKey.vault e v) (PartitionKey.vault e' v') p q h =
      vault_injective e v e' v' p q h
  to_string_injective hex (PartitionKey.combination_key _) other p q h = elim p [ ]
  to_string_injective hex (PartitionKey.fingerprint a) (PartitionKey.combination_key _) p q h =
      elim q [ ]
  to_string_injective hex (PartitionKey.hash_table a) (PartitionKey.combination_key _) p q h =
      elim q [ ]
  to_string_injective hex (PartitionKey.locker m c l) (PartitionKey.combination_key _) p q h =
      elim q [ ]
  to_string_injective hex (PartitionKey.reverse_lookup a) (PartitionKey.combination_key _) p q h =
      elim q [ ]
  to_string_injective hex (PartitionKey.vault e v) (PartitionKey.combination_key _) p q h =
      elim q [ ]

  -- Without that condition they do share it: the text of the vault of entity `a_b` and identifier `c`
  -- is that of the vault of entity `a` and identifier `b_c`, for all texts.
  pub vaults_share_name :
      (a b c : Text)
      → to_string hex_encode (PartitionKey.vault (a ++ (95 ∷ b)) c)
        ≡ to_string hex_encode (PartitionKey.vault a (b ++ (95 ∷ c)))
  unfolding to_string
  vaults_share_name a b c = ap (λ t. codes "vault_" ++ t) (append_assoc a (95 ∷ b) (95 ∷ c))
