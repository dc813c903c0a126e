-- ===== src/Mongo/Progress.antt =====
-- Saves to the MongoDB store that the server accepts.
use saysion.Prelude.{String, ◌≡◌, ◌∙◌, true, Option, Result, ok}
use saysion.Session.State.{Lineage, Session, Owned}
use saysion.Session.Identity.{persistence_attempt}
use saysion.Session.Persist.{snapshot, capture_revision}
use saysion.Session.Progress.{IsReady, guard_of, held, after_claim, captured, captured_lem}
use saysion.Backend.Progress.{
  quiet, accepted, Succeeds, write_record-accepted, attempted_record-accepted, accepted_lem,
}
use saysion.Mongo.Documents.{Collection}
use saysion.Mongo.{session_doc, save_doc, delete_doc, write_doc, store_session}

module _ {D : Type 0} (coll : Collection D) (to_string : Owned → Result String) (s : Session)
    (origin : Option String) (l : Lineage) (v : IsReady s l origin) (json : String)
    (text : to_string (snapshot (persistence_attempt l s).1 s) ≡ ok json) (d : D)
    (good : (save_doc coll origin (session_doc coll s json) d).0 ≡ ok tt) where
  doc_written :
      write_doc coll quiet s origin json
        (capture_revision (after_claim origin l)).0
        (guard_of true s origin)
        (held (captured origin l))
        d
      ≡ accepted s
          (capture_revision (after_claim origin l)).0
          (guard_of true s origin)
          (held (captured origin l))
          (save_doc coll origin (session_doc coll s json) d).1
  unfolding write_doc
  doc_written =
      let (_, _, alive) = captured_lem origin l in
      write_record-accepted (delete_doc coll) (save_doc coll origin (session_doc coll s json)) s
        (capture_revision (after_claim origin l)).0 (guard_of true s origin)
        (held (captured origin l)) d (alive ∙ v.idle.alive) good

  -- A save of an idle session without live tokens, on which no other handle acts meanwhile, whose
  -- attempt is granted, whose snapshot is serialized and whose commands the server accepts,
  -- succeeds: it issues the session's cookie, leaves the collection as those commands do, leaves
  -- nothing to save, and leaves the session ready to be saved again or deleted, under its identity.
  pub accepted_doc-Succeeds :
      Succeeds s
        (store_session coll to_string quiet s l d)
        (save_doc coll origin (session_doc coll s json) d).1
  unfolding store_session
  accepted_doc-Succeeds =
      let after = (save_doc coll origin (session_doc coll s json) d).1 in
      accepted_lem to_string s origin l v json text (write_doc coll quiet s) d after doc_written
        (store_session coll to_string quiet s l d)
        (attempted_record-accepted to_string s origin l v json text (write_doc coll quiet s) d after
          doc_written)
