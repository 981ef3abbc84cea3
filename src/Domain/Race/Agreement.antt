-- ===== src/Domain/Race/Agreement.antt =====
-- domain/fingerprint.rs: two concurrent callers of `get_or_insert` with one hash agree.
use hyperswitch_card_vault.Common.{
  ◌≡◌, inl, inr, refl, subst, none, some, Option, Text, Result, ok, err, Option-cases,
}
use hyperswitch_card_vault.Error.Types.{FingerprintDbError}
use hyperswitch_card_vault.Storage.Rows.{Bytes, Fingerprint}
use hyperswitch_card_vault.Domain.{FingerprintInterface}
use hyperswitch_card_vault.Domain.Race.{Progress, after_read, after_insert, after_reread, advance}

-- A store whose rows have unique hashes: a read is the row, an insert of a new hash stores the row it
-- answers, an insert of a hash that is there fails, and no insert replaces a row.
pub record IsKeyed {W : Type 0} (db : FingerprintInterface W)
    (rows : W → Bytes → Option Fingerprint) : Type 0 where
  pub find : (h : Bytes) (w : W) → db.find_optional_by_fingerprint_hash h w ≡ (ok (rows w h), w)
  pub insert-new :
      (h : Bytes) (id : Text) (w : W)
      → rows w h ≡ none
      → (f : Fingerprint) × ((db.insert_fingerprint h id w).0 ≡ ok f)
        × (rows (db.insert_fingerprint h id w).1 h ≡ some f)
  pub insert-old :
      (h : Bytes) (id : Text) (w : W) (f : Fingerprint)
      → rows w h ≡ some f
      → (db.insert_fingerprint h id w).0 ≡ err FingerprintDbError.duplicate
  pub insert-keeps :
      (h : Bytes) (id : Text) (w : W) (k : Bytes) (f : Fingerprint)
      → rows w k ≡ some f
      → rows (db.insert_fingerprint h id w).1 k ≡ some f

pub record System (W : Type 0) : Type 0 where
  pub world : W
  pub first : Progress
  pub second : Progress

module _ {W : Type 0} (db : FingerprintInterface W) (hash : Bytes) (id1 id2 : Text) where
  -- One of the two callers calls the store, or another inserts some row.
  pub data Step : System W → System W → Type 0 where
    first_step :
        (s : System W)
        → Step s (record s {
          world = (advance db hash id1 s.first s.world).1;
          first = (advance db hash id1 s.first s.world).0;
        })
    second_step :
        (s : System W)
        → Step s (record s {
          world = (advance db hash id2 s.second s.world).1;
          second = (advance db hash id2 s.second s.world).0;
        })
    other_insert :
        (h : Bytes) (id : Text) (s : System W)
        → Step s (record s { world = (db.insert_fingerprint h id s.world).1 })

  -- What both callers have not begun with leads to.
  pub data Reached (start : W) : System W → Type 0 where
    begin :
        Reached start
          (record { world = start; first = Progress.reading; second = Progress.reading })
    after_step : {s t : System W} → Reached start s → Step s t → Reached start t

  module _ (rows : W → Bytes → Option Fingerprint) (keyed : IsKeyed db rows) where
    -- A caller that has an answer has the stored row; one that reads again has a row to read.
    IsTold : Progress → W → Type 0
    IsTold Progress.reading w = Unit
    IsTold Progress.inserting w = Unit
    IsTold Progress.rereading w = (f : Fingerprint) × (rows w hash ≡ some f)
    IsTold (Progress.done (ok f)) w = rows w hash ≡ some f
    IsTold (Progress.done (err e)) w = ⊥

    after_read-IsTold :
        (o : Option Fingerprint) (w : W) → rows w hash ≡ o → IsTold (after_read (ok o)) w
    unfolding IsTold after_read
    after_read-IsTold none w h = tt
    after_read-IsTold (some f) w h = h

    reread-IsTold :
        (o : Option Fingerprint) (w : W) (f : Fingerprint)
        → rows w hash ≡ o
        → o ≡ some f
        → IsTold (after_reread (ok o)) w
    unfolding IsTold after_reread
    reread-IsTold none w f h e = absurd cc
    reread-IsTold (some g) w f h e = h

    insert-IsTold :
        (id : Text) (w : W)
        → IsTold
            (after_insert (db.insert_fingerprint hash id w).0)
            (db.insert_fingerprint hash id w).1
    unfolding IsTold after_insert
    insert-IsTold id w = elim (Option-cases (rows w hash)) [
      | inl new ↦ let (f, answer, row) = keyed.insert-new hash id w new in rw answer row
      | inr (f, old) ↦
          rw (keyed.insert-old hash id w f old) (f, keyed.insert-keeps hash id w hash f old)
    ]

    second_read-IsTold :
        (w : W) → IsTold Progress.rereading w → IsTold (after_reread (ok (rows w hash))) w
    unfolding IsTold
    second_read-IsTold w (f, row) = reread-IsTold (rows w hash) w f refl row

    advance-IsTold :
        (id : Text) (p : Progress) (w : W)
        → IsTold p w
        → IsTold (advance db hash id p w).0 (advance db hash id p w).1
    unfolding advance
    advance-IsTold id Progress.reading w h =
        rw (keyed.find hash w) (after_read-IsTold (rows w hash) w refl)
    advance-IsTold id Progress.inserting w h = insert-IsTold id w
    advance-IsTold id Progress.rereading w h = rw (keyed.find hash w) (second_read-IsTold w h)
    advance-IsTold id (Progress.done r) w h = h

    -- Every row of `w` is there in `w'`.
    abbrev Kept : W → W → Type 0
    Kept w w' = (k : Bytes) (f : Fingerprint) → rows w k ≡ some f → rows w' k ≡ some f

    IsTold-Kept : (p : Progress) (w w' : W) → Kept w w' → IsTold p w → IsTold p w'
    unfolding IsTold
    IsTold-Kept Progress.reading w w' keep h = tt
    IsTold-Kept Progress.inserting w w' keep h = tt
    IsTold-Kept Progress.rereading w w' keep (f, row) = (f, keep hash f row)
    IsTold-Kept (Progress.done (ok f)) w w' keep h = keep hash f h
    IsTold-Kept (Progress.done (err e)) w w' keep h = h

    advance-Kept : (id : Text) (p : Progress) (w : W) → Kept w (advance db hash id p w).1
    unfolding advance
    advance-Kept id Progress.reading w k f row = rw (keyed.find hash w) row
    advance-Kept id Progress.inserting w k f row = keyed.insert-keeps hash id w k f row
    advance-Kept id Progress.rereading w k f row = rw (keyed.find hash w) row
    advance-Kept id (Progress.done r) w k f row = row

    Reached-IsTold :
        (start : W) (s : System W)
        → Reached start s
        → IsTold s.first s.world × IsTold s.second s.world
    unfolding IsTold
    Reached-IsTold start s begin = (tt, tt)
    Reached-IsTold start s (after_step r (first_step t)) =
        let (a, b) = Reached-IsTold start t r in
        (
          advance-IsTold id1 t.first t.world a,
          IsTold-Kept t.second t.world _ (advance-Kept id1 t.first t.world) b,
        )
    Reached-IsTold start s (after_step r (second_step t)) =
        let (a, b) = Reached-IsTold start t r in
        (
          IsTold-Kept t.first t.world _ (advance-Kept id2 t.second t.world) a,
          advance-IsTold id2 t.second t.world b,
        )
    Reached-IsTold start s (after_step r (other_insert h id t)) =
        let (a, b) = Reached-IsTold start t r in
        let keep : Kept t.world (db.insert_fingerprint h id t.world).1 =
          λ k f row. keyed.insert-keeps h id t.world k f row in
        (IsTold-Kept t.first t.world _ keep a, IsTold-Kept t.second t.world _ keep b)

    done-row :
        (r : Result FingerprintDbError Fingerprint) (w : W)
        → IsTold (Progress.done r) w
        → (f : Fingerprint) × (r ≡ ok f) × (rows w hash ≡ some f)
    unfolding IsTold
    done-row (ok f) w h = (f, refl, h)
    done-row (err e) w h = elim h [ ]

    -- On a store whose rows have unique hashes, however the calls of two callers with one hash and the
    -- inserts of others are interleaved, two callers that are both back have the same fingerprint,
    -- which is the stored row of the hash; neither has an error.
    pub callers_agree :
        (start : W) (s : System W) (r1 r2 : Result FingerprintDbError Fingerprint)
        → Reached start s
        → s.first ≡ Progress.done r1
        → s.second ≡ Progress.done r2
        → (f : Fingerprint) × (r1 ≡ ok f) × (r2 ≡ ok f) × (rows s.world hash ≡ some f)
    callers_agree start s r1 r2 reached e1 e2 =
        let (a, b) = Reached-IsTold start s reached in
        let (f, first, row) = done-row r1 s.world (subst (λ p. IsTold p s.world) e1 a) in
        let (g, second, same) = done-row r2 s.world (subst (λ p. IsTold p s.world) e2 b) in
        (f, first, cc, row)
