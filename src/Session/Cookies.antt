-- ===== src/Session/Cookies.antt =====
-- src/session.rs: the cookie of a server-side session, and the identity that it stands for.
-- The base64 and blake3 crates are parameters.
use saysion.Prelude.{
  ℕ, ◌+◌, ◌*◌, ◌/◌, String, true, false, not, none, some, List, [], invalid_length, Result, ok, err,
  ◌>>=◌, length, ◌==◌, ltb, if◌then◌else◌,
}
use saysion.Prelude.{byte_len}
use saysion.Session.State.{Lineage, Session, Owned, new_lineage}
use saysion.Session.Identity.{rotate}

pub record External : Type 0 where
  -- `BASE64_STANDARD.encode`, and `.decode` with its own error
  pub base64_encode : List ℕ → String
  pub base64_decode : String → Result (List ℕ)
  -- the 32 bytes of `blake3::hash`
  pub blake3 : List ℕ → List ℕ

unfoldable pub server_cookie_bytes : ℕ
server_cookie_bytes = 64

unfoldable pub server_cookie_encoded_len : ℕ
unfolding server_cookie_bytes
server_cookie_encoded_len = (server_cookie_bytes + 2) / 3 * 4

module _ (x : External) where
  -- `decode_slice` into a buffer of `server_cookie_bytes`, with its errors mapped.
  unfoldable pub decode_slice : String → Result (List ℕ)
  unfolding server_cookie_bytes
  decode_slice text = elim (x.base64_decode text) [
    | err e ↦ err e
    | ok bytes ↦
        if ltb server_cookie_bytes (length bytes)
        then err (invalid_length (byte_len text))
        else ok bytes
  ]

  unfoldable pub id_from_cookie_value : String → Result String
  unfolding decode_slice server_cookie_encoded_len
  id_from_cookie_value text =
      if not (byte_len text == server_cookie_encoded_len)
      then err (invalid_length (byte_len text))
      else elim (decode_slice text) [
        | err e ↦ err e
        | ok decoded ↦
            if not (length decoded == server_cookie_bytes)
            then err (invalid_length (byte_len text))
            else ok (x.base64_encode (x.blake3 decoded))
      ]

  -- `key` is what the random generator fills the buffer with.
  unfoldable pub generate_cookie : List ℕ → String
  generate_cookie key = x.base64_encode key

  unfoldable pub fresh_session : String → String → Owned
  unfolding new_lineage
  fresh_session cookie id = record {
    session = record {
      id = id;
      expiry = none;
      cookie_value = some cookie;
      metadata_changed = false;
      rotation_from = none;
      fresh = true;
    };
    lineage = new_lineage [] none;
  }

  -- `Session::new`; an error is the panic of its `unwrap`.
  unfoldable pub new : List ℕ → Result Owned
  unfolding generate_cookie id_from_cookie_value fresh_session
  new key = do
    let cookie = generate_cookie key
    id ← id_from_cookie_value cookie
    ok (fresh_session cookie id)

  -- `Session::regenerate`; an error is the panic of its `unwrap`.
  unfoldable pub regenerate : Lineage → List ℕ → Session → Result Session
  unfolding generate_cookie id_from_cookie_value rotate
  regenerate l key s = do
    let cookie = generate_cookie key
    id ← id_from_cookie_value cookie
    ok (rotate l id cookie s)
