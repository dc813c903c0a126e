-- ===== src/Mongo.antt =====
-- src/mongodb_store.rs: the MongoDB store, on a collection that is a parameter.
pub mod Documents
pub mod Expiry
pub mod Outcomes
pub mod Saves
pub mod Progress
pub mod Contract
use saysion.Prelude.{
  ℕ, ◌+◌, ◌*◌, ◌/◌, ◌%◌, String, true, false, not, Option, none, some, List, [], ◌∷◌, Error,
  session_conflict, Result, ok, err, ◌>>=◌, ◌==◌, str_eq, if◌then◌else◌,
}
use saysion.Lifecycle.{Poll, ready, SessionWriteGuard}
use saysion.Session.Revision.{SaveRevision}
use saysion.Session.State.{Lineage, Session, Owned, is_destroyed}
use saysion.Session.Identity.{persistence_attempt}
use saysion.Session.Cookies.{External}
use saysion.Session.Persist.{persistence_snapshot}
use saysion.Backend.{Schedule, Outcome, write_record, attempted_record, destroy_record, load_record}
use saysion.Mongo.Documents.{SessionDoc, IndexModel, Collection}

unfoldable pub default_collection : String
default_collection = "saysion_sessions"

-- The client, of a type that is a parameter.
pub record MongoDbStore (C : Type 0) : Type 0 where
  pub client : C
  pub db : String
  pub coll_name : String

unfoldable pub new : {C : Type 0} → C → String → MongoDbStore C
unfolding default_collection
new client db = record { client = client; db = db; coll_name = default_collection }

-- `connect` is `Client::with_uri_str`.
unfoldable pub from_uri :
    {C : Type 0} → (String → Result C) → String → String → Result (MongoDbStore C)
unfolding new
from_uri connect uri db = do client ← connect uri; ok (new client db)

unfoldable pub with_collection : {C : Type 0} → String → MongoDbStore C → MongoDbStore C
with_collection coll_name store = record store { coll_name = coll_name }

-- `collection` is `client.database(db).collection(coll_name)`.
unfoldable pub coll_of :
    {C D : Type 0} → (C → String → String → Collection D) → MongoDbStore C → Collection D
coll_of collection store = collection store.client store.db store.coll_name

-- In milliseconds. A time is a number of nanoseconds since a whole second.
unfoldable pub expiry_datetime : ℕ → ℕ
expiry_datetime expiry = expiry / 1000000000 * 1000 + (expiry % 1000000000 + 999999) / 1000000

unfoldable pub initialize : {D : Type 0} → Collection D → D → Result (Unit {0}) × D
initialize coll d =
    coll.create_index (record { keys = ("expires_at", 1) ∷ []; expire_after = some 0 }) d

unfoldable pub count : {D : Type 0} → Collection D → D → Result ℕ
count coll d = coll.count_documents d

-- What follows a deletion and a replacement, by the number of documents that they found.
unfoldable pub some_deleted : Result ℕ → Result (Unit {0})
some_deleted (err e) = err e
some_deleted (ok n) = if n == 0 then err session_conflict else ok tt

unfoldable pub one_matched : Result ℕ → Result (Unit {0})
one_matched (err e) = err e
one_matched (ok n) = if not (n == 1) then err session_conflict else ok tt

module _ {D : Type 0} (coll : Collection D) where
  unfoldable pub load_session :
      External → (String → Result Owned) → ℕ → String → D → Result (Option Owned)
  unfolding load_record
  load_session x from_str now cookie_value d =
      load_record x from_str now
        (λ id. do
          found ← coll.find_one id d
          ok (elim found [ none ↦ none | some doc ↦ some doc.session ]))
        cookie_value

  unfoldable pub rotate_doc : String → SessionDoc → D → Result (Unit {0}) × D
  unfolding some_deleted
  rotate_doc old_id doc d =
      let (deleted, d') = coll.delete_one old_id d in
      elim (some_deleted deleted) [ err e ↦ (err e, d') | ok _ ↦ coll.insert_one doc d' ]

  unfoldable pub replace_doc : SessionDoc → D → Result (Unit {0}) × D
  unfolding one_matched
  replace_doc doc d = let (matched, d') = coll.replace_one doc.id doc d in (one_matched matched, d')

  -- The three ways to write the document.
  unfoldable pub save_doc : Option String → SessionDoc → D → Result (Unit {0}) × D
  unfolding rotate_doc replace_doc
  save_doc none doc d = coll.insert_one doc d
  save_doc (some old_id) doc d =
      if not (str_eq old_id doc.id) then rotate_doc old_id doc d else replace_doc doc d

  unfoldable pub delete_doc : String → D → Result (Unit {0}) × D
  delete_doc id d = let (deleted, d') = coll.delete_one id d in ((do n ← deleted; ok tt), d')

  unfoldable pub session_doc : Session → String → SessionDoc
  unfolding expiry_datetime
  session_doc s json = record {
    id = s.id;
    expires_at = elim s.expiry [ none ↦ none | some expiry ↦ some (expiry_datetime expiry) ];
    session = json;
  }

  -- The part of `store_session` that holds the write guard.
  unfoldable pub write_doc :
      Schedule
      → Session
      → Option String
      → String
      → SaveRevision
      → SessionWriteGuard
      → Lineage
      → D
      → Outcome D
  unfolding save_doc delete_doc session_doc write_record
  write_doc sched s origin json r g l d =
      write_record delete_doc sched s (save_doc origin (session_doc s json)) r g l d

  -- `to_string` is `serde_json::to_string`.
  unfoldable pub store_session :
      (Owned → Result String) → Schedule → Session → Lineage → D → Outcome D
  unfolding persistence_attempt attempted_record write_doc
  store_session to_string sched s l d =
      let (attempt, l') = persistence_attempt l s in
      attempted_record to_string sched s (write_doc sched s) attempt l' d

  unfoldable pub destroy_session : Session → Lineage → D → Poll (Result (Unit {0})) × Lineage × D
  unfolding destroy_record delete_doc
  destroy_session s l d = destroy_record delete_doc s l d

  unfoldable pub clear_store : D → Result (Unit {0}) × D
  clear_store d = let (deleted, d') = coll.delete_many d in ((do n ← deleted; ok tt), d')
