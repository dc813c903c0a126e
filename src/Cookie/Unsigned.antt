-- ===== src/Cookie/Unsigned.antt =====
-- What the cookies of src/cookie_store.rs, which are not signed, carry.
use saysion.Prelude.{ℕ, String, ◌≡◌, refl, false, some, List, arith, ok, ◌>>=◌}
use saysion.Session.Revision.{is_dirty}
use saysion.Session.State.{Lineage, Session, is_expired, data_changed}
use saysion.Session.Cookies.{External}
use saysion.Session.Persist.{snapshot}
use saysion.Cookie.Codec.{Codec, wire, deserialized}
use saysion.Cookie.Store.{load_unsigned, store_unsigned}

-- A session that is serialized, while no other save of it is under way, is stored in a cookie that
-- loads its identity, its expiry and its values until the expiry passes, and has no unsaved changes
-- then; if the codecs read back what they wrote.
pub load_unsigned-store :
    (x : External) (c : Codec) (now : ℕ) (l : Lineage) (s : Session) (bytes : List ℕ)
    → c.to_stdvec (wire (snapshot l s)) ≡ ok bytes
    → c.from_bytes bytes ≡ ok (wire (snapshot l s))
    → x.base64_decode (x.base64_encode bytes) ≡ ok bytes
    → is_expired now s ≡ false
    → l.data_.active_saves ≡ 0
    → (cookie : String) × ((store_unsigned x c l s).0 ≡ ok cookie)
      × (load_unsigned x c now cookie ≡ ok (some (deserialized (wire (snapshot l s)))))
      × (data_changed (store_unsigned x c l s).1 (store_unsigned x c l s).2 ≡ false)
unfolding data_changed is_dirty
load_unsigned-store x c now l s bytes written reads decodes live alone =
    (x.base64_encode bytes, stored, loaded, clean)
  where
    stored : (store_unsigned x c l s).0 ≡ ok (x.base64_encode bytes)
    stored = unfold store_unsigned in rw (written, store_unsigned) refl

    loaded :
        load_unsigned x c now (x.base64_encode bytes)
        ≡ ok (some (deserialized (wire (snapshot l s))))
    loaded =
        unfold load_unsigned wire snapshot deserialized in
        rw (decodes, ◌>>=◌, reads, ◌>>=◌) (ground (arith, live))

    clean : data_changed (store_unsigned x c l s).1 (store_unsigned x c l s).2 ≡ false
    clean = unfold store_unsigned in rw (written, store_unsigned) (ground (arith, alone))
