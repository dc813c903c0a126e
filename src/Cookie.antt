-- ===== src/Cookie.antt =====
-- src/cookie_store.rs and src/signed_cookie_store.rs: the stores that keep a session in its cookie.
pub mod Codec
pub mod Store
pub mod Signed
pub mod Unsigned
