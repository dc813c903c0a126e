-- ===== src/Diagnostics.antt =====
-- The implementations of `Debug` in src/session.rs, src/session_save.rs, src/session_lifecycle.rs,
-- src/memory_store.rs, src/signed_cookie_store.rs, src/redis_store.rs and src/mongodb_store.rs, without
-- the alternate flag of a formatter.
use saysion.Prelude.{ℕ, String, ◌≡◌, refl, Bool, true, false, Option, List, [], ◌∷◌, concat, length}
use saysion.Lifecycle.{SessionWriteGuard, SessionDeleteGuard}
use saysion.Session.Revision.{SaveRevision}
use saysion.Session.State.{Lineage, Session, is_destroyed}
use saysion.Session.Persist.{SessionSnapshot}
use saysion.Save.{SessionSave}
use saysion.Memory.State.{MemoryState}
use saysion.Redis.{RedisStore}
use saysion.Mongo.{MongoDbStore}
use saysion.Cookie.Store.{SignedCookieStore}

-- `Debug` of the values that are printed: times, and counts and texts of the standard library.
pub record Formatter : Type 0 where
  pub expiry : Option ℕ → String
  pub count : ℕ → String
  pub text : String → String

unfoldable pub bool_text : Bool → String
bool_text true = "true"
bool_text false = "false"

-- The fields of a `DebugStruct`, each with its name.
unfoldable pub fields_text : List (String × String) → String
fields_text [] = ""
fields_text ((name, value) ∷ []) = concat (name ∷ ": " ∷ value ∷ [])
fields_text ((name, value) ∷ rest) = concat (name ∷ ": " ∷ value ∷ ", " ∷ fields_text rest ∷ [])

-- `debug_struct(name)`, its fields, and `finish_non_exhaustive()` or `finish()`.
unfoldable pub finish_non_exhaustive : String → List (String × String) → String
unfolding fields_text
finish_non_exhaustive name [] = concat (name ∷ " { .. }" ∷ [])
finish_non_exhaustive name (f ∷ fs) = concat (name ∷ " { " ∷ fields_text (f ∷ fs) ∷ ", .. }" ∷ [])

unfoldable pub finish : String → List (String × String) → String
unfolding fields_text
finish name [] = name
finish name (f ∷ fs) = concat (name ∷ " { " ∷ fields_text (f ∷ fs) ∷ " }" ∷ [])

module _ (f : Formatter) where
  unfoldable pub fmt_revision : SaveRevision → String
  unfolding finish_non_exhaustive
  fmt_revision r = finish_non_exhaustive "SaveRevision" []

  unfoldable pub fmt_session : Lineage → Session → String
  unfolding is_destroyed bool_text finish_non_exhaustive
  fmt_session l s =
      finish_non_exhaustive "Session"
        (("expiry", f.expiry s.expiry) ∷ ("destroyed", bool_text (is_destroyed l)) ∷ [])

  unfoldable pub fmt_snapshot : SessionSnapshot → String
  unfolding finish_non_exhaustive
  fmt_snapshot snap =
      finish_non_exhaustive "SessionSnapshot" (("expiry", f.expiry snap.expiry) ∷ [])

  unfoldable pub fmt_save : SessionSave → String
  unfolding fmt_snapshot finish_non_exhaustive
  fmt_save v = finish_non_exhaustive "SessionSave" (("session", fmt_snapshot v.snapshot) ∷ [])

  unfoldable pub fmt_write_guard : SessionWriteGuard → String
  unfolding finish_non_exhaustive
  fmt_write_guard g = finish_non_exhaustive "SessionWriteGuard" []

  unfoldable pub fmt_delete_guard : SessionDeleteGuard → String
  unfolding finish_non_exhaustive
  fmt_delete_guard g = finish_non_exhaustive "SessionDeleteGuard" []

  unfoldable pub fmt_memory : MemoryState → String
  unfolding finish_non_exhaustive
  fmt_memory st = finish_non_exhaustive "MemoryStore" []

  unfoldable pub fmt_signed : SignedCookieStore → String
  unfolding finish_non_exhaustive
  fmt_signed store =
      finish_non_exhaustive "SignedCookieStore"
        (("fallback_key_count", f.count (length store.fallback_keys)) ∷ [])

  unfoldable pub fmt_redis : {C : Type 0} → RedisStore C → String
  unfolding finish
  fmt_redis store = finish "RedisStore" (("prefix", f.text store.prefix) ∷ [])

  unfoldable pub fmt_mongo : {C : Type 0} → MongoDbStore C → String
  unfolding finish_non_exhaustive
  fmt_mongo store =
      finish_non_exhaustive "MongoDbStore"
        (("db", f.text store.db) ∷ ("coll_name", f.text store.coll_name) ∷ [])

-- No secret is printed: sessions of the same expiry that are both destroyed or both not, save tokens
-- and snapshots of the same expiry, guards, memory stores, and signed cookie stores with as many
-- keys are printed alike, whatever their identities, cookies, values, records and keys; and stores
-- that differ in their connection only, whatever credentials that holds.
pub debug_redacts :
    {C : Type 0} (f : Formatter) (s s' : Session) (l l' : Lineage) (v v' : SessionSave)
    (g g' : SessionWriteGuard) (e e' : SessionDeleteGuard) (st st' : MemoryState)
    (k k' : SignedCookieStore) (red : RedisStore C) (mon : MongoDbStore C) (conn : C)
    → s.expiry ≡ s'.expiry
    → l.destroy ≡ l'.destroy
    → v.snapshot.expiry ≡ v'.snapshot.expiry
    → length k.fallback_keys ≡ length k'.fallback_keys
    → (fmt_session f l s ≡ fmt_session f l' s')
      × (fmt_save f v ≡ fmt_save f v')
      × (fmt_snapshot f v.snapshot ≡ fmt_snapshot f v'.snapshot)
      × (fmt_revision f v.revision ≡ fmt_revision f v'.revision)
      × (fmt_write_guard f g ≡ fmt_write_guard f g')
      × (fmt_delete_guard f e ≡ fmt_delete_guard f e')
      × (fmt_memory f st ≡ fmt_memory f st')
      × (fmt_signed f k ≡ fmt_signed f k')
      × (fmt_redis f red ≡ fmt_redis f (record red { conn = conn }))
      × (fmt_mongo f mon ≡ fmt_mongo f (record mon { client = conn }))
unfolding fmt_session fmt_save fmt_snapshot fmt_revision fmt_write_guard fmt_delete_guard fmt_memory
    fmt_signed fmt_redis fmt_mongo
debug_redacts f s s' l l' v v' g g' e e' st st' k k' red mon conn same dead saved keys = (
  rw (same, dead) refl,
  rw saved refl,
  rw saved refl,
  refl,
  refl,
  refl,
  refl,
  rw keys refl,
  refl,
  refl,
)
