-- ===== src/Domain/Tests.antt =====
-- A race of two callers of `get_or_insert`, on a store for one hash.
use hyperswitch_card_vault.Common.{
  ◌≡◌, refl, [], ◌∷◌, none, some, Option, Text, Result, codes, ok, err,
}
use hyperswitch_card_vault.Error.Types.{FingerprintDbError}
use hyperswitch_card_vault.Storage.Rows.{Bytes, Fingerprint}
use hyperswitch_card_vault.Domain.{
  FingerprintInterface, get_or_insert_hash, read_or_insert, insert_or, or_conflict,
}
use hyperswitch_card_vault.Domain.Race.{
  Progress, after_read, after_insert, after_reread, advance, advance_times, advance-get_or_insert,
}
use hyperswitch_card_vault.Domain.Race.Agreement.{
  IsKeyed, System, first_step, second_step, Reached, begin, after_step, callers_agree,
}

abbrev Store : Type 0
Store = Option Fingerprint

abbrev the_hash : Bytes
the_hash = 1 ∷ []

abbrev row : Text → Fingerprint
row id = record { id = 0; fingerprint_hash = the_hash; fingerprint_id = id; updated_by = none }

abbrev insert : Store → Text → Result FingerprintDbError Fingerprint × Store
insert none id = (ok (row id), some (row id))
insert (some f) id = (err FingerprintDbError.duplicate, some f)

abbrev db : FingerprintInterface Store
db = record {
  find_optional_by_fingerprint_hash = λ h w. (ok w, w);
  insert_fingerprint = λ h id w. insert w id;
}

abbrev rows : Store → Bytes → Option Fingerprint
rows w h = w

insert-new_lem :
    (id : Text) (w : Store)
    → w ≡ none
    → (f : Fingerprint) × ((insert w id).0 ≡ ok f) × ((insert w id).1 ≡ some f)
insert-new_lem id none h = (row id, refl, refl)
insert-new_lem id (some f) h = absurd cc

insert-old_lem :
    (id : Text) (w : Store) (f : Fingerprint)
    → w ≡ some f
    → ((insert w id).0 ≡ err FingerprintDbError.duplicate) × ((insert w id).1 ≡ some f)
insert-old_lem id none f h = absurd cc
insert-old_lem id (some g) f h = (refl, h)

db-IsKeyed : IsKeyed db rows
db-IsKeyed = record {
  find = λ h w. refl;
  insert-new = λ h id w e. insert-new_lem id w e;
  insert-old = λ h id w f e. (insert-old_lem id w f e).0;
  insert-keeps = λ h id w k f e. (insert-old_lem id w f e).1;
}

abbrev a : Text
a = codes "a"

abbrev b : Text
b = codes "b"

-- Both read, the first inserts, the second's insert fails, and it reads again.
abbrev ended : System Store
ended = record {
  world = some (row a);
  first = Progress.done (ok (row a));
  second = Progress.done (ok (row a));
}

race : Reached db the_hash a b none ended
unfolding advance after_read after_insert after_reread
race =
    after_step
      (after_step
        (after_step (after_step (after_step begin (first_step _)) (second_step _)) (first_step _))
        (second_step _))
      (second_step _)

abbrev answer : Result FingerprintDbError Fingerprint
answer = ok (row a)

callers_agree_example :
    (f : Fingerprint) × (answer ≡ ok f) × (answer ≡ ok f) × (some (row a) ≡ some f)
callers_agree_example =
    callers_agree db the_hash a b rows db-IsKeyed none ended (ok (row a)) (ok (row a)) race refl
      refl

advance-get_or_insert_example :
    advance_times db the_hash 3 a Progress.reading none ≡ (Progress.done (ok (row a)), some (row a))
unfolding get_or_insert_hash read_or_insert insert_or or_conflict
advance-get_or_insert_example = advance-get_or_insert db the_hash a none
