-- ===== src/Access.antt =====
-- Who may actuate what: access_control.py over the authorizer of cipherweave_verify.
pub mod Authorizer
pub mod Request
pub mod Sample
