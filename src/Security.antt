-- ===== src/Security.antt =====
-- bridge_security.py
pub mod Xor
pub mod Session
pub mod Nonces
pub mod Signer
pub mod Redaction
pub mod Replay
pub mod Accepts
pub mod Secrets
pub mod Witnesses
