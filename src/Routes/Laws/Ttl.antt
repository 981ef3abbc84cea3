-- ===== src/Routes/Laws/Ttl.antt =====
-- The time to live of a request and of the row that it becomes: routes/data/types.rs and routes/data.rs.
use hyperswitch_card_vault.Common.{
  ℕ, ◌+◌, ◌*◌, ◌^◌, ◌<◌, ◌≡◌, ◌↔◌, min, some, ok, err, raised, Exec, ltb, if◌then◌else◌, arith,
}
use hyperswitch_card_vault.Error.Types.{ApiError, VaultDbError}
use hyperswitch_card_vault.Storage.Rows.{Time}
use hyperswitch_card_vault.Routes.Types.{deserialize_ttl, validate_ttl}
use hyperswitch_card_vault.Routes.Data.{Runtime, check_expiry}

-- A number of seconds that an `i64` holds, read at `start`, is the time to live that many seconds after
-- it, or the last time `max` where that is earlier; the time to live passes the validation at a
-- time exactly when that time is before it; and a row that has it is found not to be there, its deletion
-- spawned, exactly when the clock of the read is past it: at the very time it is still there.
pub ttl_lem :
    {W : Type 0} (runtime : Runtime W) (delete : Exec W VaultDbError ℕ) (w : W)
    (max start now seconds : ℕ)
    → seconds < 2 ^ 63
    → let ttl : Time = min (start + seconds * 1000000000) max in
      (deserialize_ttl max start (some seconds) ≡ some (some ttl))
      × ((validate_ttl now (some ttl) ≡ ok tt)
          ↔ ((now < start + seconds * 1000000000) × (now < max)))
      × (((check_expiry runtime delete (some ttl) w).0 ≡ err (raised ApiError.not_found_error))
          ↔ (ttl < runtime.now w))
      × ((check_expiry runtime delete (some ttl) w).1
          ≡ (if ltb ttl (runtime.now w) then runtime.spawn delete w else w))
unfolding deserialize_ttl validate_ttl check_expiry
ttl_lem runtime delete w max start now seconds h = (
  ground arith,
  (λ p. ground arith, λ p. ground arith),
  (λ p. ground arith, λ p. ground arith),
  ground arith,
)
