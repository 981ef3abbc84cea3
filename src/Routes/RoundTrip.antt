-- ===== src/Routes/RoundTrip.antt =====
-- What a data route stored, the routes retrieve.
pub mod V2
pub mod V1
