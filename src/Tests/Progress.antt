-- ===== src/Tests/Progress.antt =====
-- Saves that the backends of the other tests accept, of a session that was regenerated.
use saysion.Prelude.{String, ◌≡◌, refl, false, none, some, [], ◌∷◌, Result, ok, concat}
use saysion.Session.State.{Session, Owned, Lineage, expires_in}
use saysion.Session.Progress.{IsReady}
use saysion.Backend.Progress.{quiet, Succeeds}
use saysion.Save.{SessionSave, prepare_save, begin_write, complete_with_guard}
use saysion.Save.Progress.{guarded_save_succeeds}
use saysion.Lifecycle.{ready, SessionWriteGuard}
use saysion.Session.Revision.{is_dirty}
use saysion.Session.Identity.{persistence_attempt}
use saysion.Session.Persist.{begin_delete}
use saysion.Mongo
use saysion.Mongo.{save_doc, session_doc}
use saysion.Mongo.Progress.{accepted_doc-Succeeds}
use saysion.Redis
use saysion.Redis.Progress.{accepted_entry-Succeeds}
use saysion.Redis.Progress.{command}
use saysion.Sql.Postgres
use saysion.Sql.Postgres.{queries}
use saysion.Sql.Store
use saysion.Sql.Store.{save_row, expiry_unix}
use saysion.Sql.Progress.{accepted_row-Succeeds}
use saysion.Tests.Fixtures.{program, newcomer, family}
use saysion.Tests.Mongo.{coll, old}
use saysion.Tests.Redis.{server, Entries}
use saysion.Tests.Sql.{db, Rows}

abbrev rotated : Session
rotated = record (newcomer "new") { rotation_from = some "old" }

abbrev saved : Lineage
saved = family (some "old")

abbrev to_string : Owned → Result String
to_string o = ok "json"

abbrev rows : Rows
rows = ("old", (none, "{}")) ∷ []

abbrev entries : Entries
entries = ("p/old", ("{}", none)) ∷ []

rotated-IsReady : IsReady rotated saved (some "old")
unfolding program
rotated-IsReady = record {
  idle = record { free = refl; sure = refl; alive = refl };
  attempt = refl;
  counted = refl;
}

accepted_row-Succeeds_example :
    Succeeds rotated
      (Store.store_session (db (queries "t")) (queries "t") to_string quiet rotated saved rows)
      (save_row
        (db (queries "t"))
        (queries "t")
        (some "old")
        "new"
        (expiry_unix rotated)
        "json"
        rows).1
unfolding program Store.store_session queries Postgres.insert_sql Postgres.update_sql
    Postgres.delete_sql Postgres.select_sql Postgres.clear_sql Store.save_row concat
accepted_row-Succeeds_example =
    accepted_row-Succeeds (db (queries "t")) (queries "t") to_string rotated (some "old") saved
      rotated-IsReady "json" refl rows refl

accepted_doc-Succeeds_test :
    Succeeds rotated
      (Mongo.store_session coll to_string quiet rotated saved old)
      (save_doc coll (some "old") (session_doc coll rotated "json") old).1
unfolding program Mongo.save_doc Mongo.session_doc
accepted_doc-Succeeds_test =
    accepted_doc-Succeeds coll to_string rotated (some "old") saved rotated-IsReady "json" refl old
      refl

accepted_entry-Succeeds_example :
    Succeeds rotated
      (Redis.store_session server "p/" to_string quiet 50 rotated saved entries)
      (command server "p/" 50 rotated (some "old") "json" (some 1) entries).1
unfolding program Redis.rotate_entry Redis.ttl_millis expires_in
accepted_entry-Succeeds_example =
    accepted_entry-Succeeds server "p/" 50 to_string rotated (some "old") saved rotated-IsReady
      "json" refl (some 1) (1, refl, refl) entries refl

guarded_save_succeeds_example :
    (t : SessionSave) × (t' : SessionSave) × (g : SessionWriteGuard) × (l₁ : Lineage)
    × (l₂ : Lineage) × (l₃ : Lineage) × (prepare_save 5 saved rotated ≡ (ok t, l₁))
    × (t.origin ≡ some "old")
    × (t.snapshot.id ≡ "new")
    × (t.snapshot.expiry ≡ some 100)
    × (t.snapshot.values ≡ saved.data_.values)
    × (begin_write t l₁ ≡ (ready (ok g), t', l₂))
    × (complete_with_guard t' g l₂ ≡ (ok (some "cookie"), l₃))
    × (is_dirty l₃.data_ ≡ false)
    × ((persistence_attempt l₃ rotated).0 ≡ ok (some "new"))
    × ((begin_delete l₃ rotated).0 ≡ ready (ok (record { id = "new" })))
guarded_save_succeeds_example = guarded_save_succeeds 5 rotated (some "old") saved rotated-IsReady
