-- ===== src/Crypto.antt =====
-- crypto: the AES-GCM envelope, and the signed and encrypted bodies of requests and responses.
pub mod Aes
pub mod Jwe
