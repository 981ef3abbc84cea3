-- ===== src/Routes.antt =====
-- routes/: the handlers of the data routes, of both versions, and of the entity route. They run for the
-- tenant of the request, whose stores and key manager are interfaces over its state.
pub mod Types
pub mod Transformers
pub mod Data
pub mod DataV2
pub mod Entities
pub mod Laws
pub mod Postgres
pub mod RoundTrip
mod Tests
