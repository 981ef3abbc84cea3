-- ===== src/Domain/Race.antt =====
-- domain/fingerprint.rs: `get_or_insert` of two callers with one hash, whose calls of the store, and
-- inserts of others, come in any order.
pub mod Agreement
use hyperswitch_card_vault.Common.{
  ℕ, zero, suc, continue, Bool-cases, ◌≡◌, ◌⊎◌, inl, inr, ◌∙◌, refl, sym, true, false, List, [],
  ◌∷◌, Option, none, some, Text, Result, ok, err, Option-cases, arith,
}
use hyperswitch_card_vault.Error.Types.{FingerprintDbError}
use hyperswitch_card_vault.Error.Classify.{fingerprint_errors}
use hyperswitch_card_vault.Storage.Rows.{Bytes, Fingerprint}
use hyperswitch_card_vault.Domain.{
  FingerprintInterface, or_conflict, insert_or, required, read_or_insert, get_or_insert_hash,
}

-- Where a caller is: before its first read, its insert or its second read, or back with an answer.
pub data Progress : Type 0 where
  reading inserting rereading : Progress
  done : Result FingerprintDbError Fingerprint → Progress

unfoldable pub after_read : Result FingerprintDbError (Option Fingerprint) → Progress
after_read (ok (some fingerprint)) = Progress.done (ok fingerprint)
after_read (ok none) = Progress.inserting
after_read (err e) = Progress.done (err e)

unfoldable pub after_insert : Result FingerprintDbError Fingerprint → Progress
after_insert (ok fingerprint) = Progress.done (ok fingerprint)
after_insert (err e) = elim (fingerprint_errors.is_duplicate e) [
  | true ↦ Progress.rereading
  | false ↦ Progress.done (err e)
]

unfoldable pub after_reread : Result FingerprintDbError (Option Fingerprint) → Progress
after_reread (ok (some fingerprint)) = Progress.done (ok fingerprint)
after_reread (ok none) = Progress.done (err FingerprintDbError.db_insert_error)
after_reread (err e) = Progress.done (err e)

module _ {W : Type 0} (db : FingerprintInterface W) (hash : Bytes) where
  -- The next call of the store by a caller that would insert under `id`.
  unfoldable pub advance : Text → Progress → W → Progress × W
  advance id Progress.reading w =
      let (a, w') = db.find_optional_by_fingerprint_hash hash w in (after_read a, w')
  advance id Progress.inserting w =
      let (a, w') = db.insert_fingerprint hash id w in (after_insert a, w')
  advance id Progress.rereading w =
      let (a, w') = db.find_optional_by_fingerprint_hash hash w in (after_reread a, w')
  advance id (Progress.done r) w = (Progress.done r, w)

  unfoldable pub advance_times : ℕ → Text → Progress → W → Progress × W
  advance_times zero id p w = (p, w)
  advance_times (suc n) id p w = let (p', w') = advance id p w in advance_times n id p' w'

  finish_reread :
      (a : Result FingerprintDbError (Option Fingerprint)) (w : W)
      → let r =
          continue {W = W}
            (λ found. λ u.
              (elim found [ none ↦ err FingerprintDbError.db_insert_error | some f ↦ ok f ], u))
            (a, w) in
        let left : Progress × W = (after_reread a, w) in left ≡ (Progress.done r.0, r.1)
  unfolding after_reread
  finish_reread (ok (some f)) w = refl
  finish_reread (ok none) w = refl
  finish_reread (err e) w = refl

  abbrev reread : W → Result FingerprintDbError Fingerprint × W
  reread = required FingerprintDbError.db_insert_error (db.find_optional_by_fingerprint_hash hash)

  finish_insert :
      (id : Text) (a : Result FingerprintDbError Fingerprint) (w : W)
      → let r = or_conflict fingerprint_errors reread (a, w) in
        advance_times 1 id (after_insert a) w ≡ (Progress.done r.0, r.1)
  unfolding advance_times advance after_insert or_conflict required
  finish_insert id (ok f) w = refl
  finish_insert id (err e) w = elim (Bool-cases (fingerprint_errors.is_duplicate e)) [
    | inl duplicate ↦
        rw (advance_times, after_insert, or_conflict, duplicate)
          (finish_reread (db.find_optional_by_fingerprint_hash hash w).0
            (db.find_optional_by_fingerprint_hash hash w).1)
    | inr other ↦ rw (advance_times, after_insert, or_conflict, other)
  ]

  finish_read :
      (id : Text) (a : Result FingerprintDbError (Option Fingerprint)) (w : W)
      → let r = continue (read_or_insert db hash id) (a, w) in
        advance_times 2 id (after_read a) w ≡ (Progress.done r.0, r.1)
  unfolding advance_times advance after_read read_or_insert insert_or
  finish_read id (ok (some f)) w = refl
  finish_read id (err e) w = refl
  finish_read id (ok none) w =
      finish_insert id (db.insert_fingerprint hash id w).0 (db.insert_fingerprint hash id w).1

  -- A caller alone is back after at most three calls of the store, with the answer and the state of
  -- `get_or_insert` from the hash on, whatever the store does.
  pub advance-get_or_insert :
      (id : Text) (w : W)
      → advance_times 3 id Progress.reading w
        ≡ (Progress.done (get_or_insert_hash db hash id w).0, (get_or_insert_hash db hash id w).1)
  unfolding advance_times advance get_or_insert_hash
  advance-get_or_insert id w =
      finish_read id (db.find_optional_by_fingerprint_hash hash w).0
        (db.find_optional_by_fingerprint_hash hash w).1
