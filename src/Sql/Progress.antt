-- ===== src/Sql/Progress.antt =====
-- Saves to the SQL stores that the database accepts.
use saysion.Prelude.{String, ◌≡◌, ap, sym, ◌∙◌, true, Option, Result, ok}
use saysion.Lifecycle.{ready}
use saysion.Session.State.{Lineage, Session, Owned}
use saysion.Session.Identity.{persistence_attempt}
use saysion.Session.Persist.{snapshot, capture_revision}
use saysion.Session.Progress.{
  IsReady, guard_of, held, after_claim, captured, captured_lem, after_save, granted,
}
use saysion.Backend.Progress.{
  quiet, accepted, Succeeds, write_record-accepted, serialized_record-accepted, accepted_lem,
}
use saysion.Sql.Database.{Database}
use saysion.Sql.Store.{
  Queries, expiry_unix, save_row, delete_row, write_row, attempted_row, store_session,
}

module _ {D T : Type 0} (db : Database D T) (q : Queries) (to_string : Owned → Result String)
    (s : Session) (origin : Option String) (l : Lineage) (v : IsReady s l origin) (json : String)
    (text : to_string (snapshot (persistence_attempt l s).1 s) ≡ ok json) (d : D)
    (good : (save_row db q origin s.id (expiry_unix s) json d).0 ≡ ok tt) where
  row_written :
      write_row db q quiet s origin json
        (capture_revision (after_claim origin l)).0
        (guard_of true s origin)
        (held (captured origin l))
        d
      ≡ accepted s
          (capture_revision (after_claim origin l)).0
          (guard_of true s origin)
          (held (captured origin l))
          (save_row db q origin s.id (expiry_unix s) json d).1
  unfolding write_row
  row_written =
      let (_, _, alive) = captured_lem origin l in
      write_record-accepted (delete_row db q) (save_row db q origin s.id (expiry_unix s) json) s
        (capture_revision (after_claim origin l)).0 (guard_of true s origin)
        (held (captured origin l)) d (alive ∙ v.idle.alive) good

  attempted_row-accepted :
      attempted_row db q to_string quiet s (persistence_attempt l s).0 (persistence_attempt l s).1 d
      ≡ record {
        answer = ready (ok s.cookie_value);
        lineage = after_save true s origin l;
        rows = (save_row db q origin s.id (expiry_unix s) json d).1;
      }
  unfolding attempted_row
  attempted_row-accepted =
      let (known, claim) = granted l s origin v.idle.alive v.attempt in
      let same : to_string (snapshot (after_claim origin l) s) ≡ ok json =
        ap (λ m. to_string (snapshot m s)) (sym claim) ∙ text in
      rw (v.attempt, claim, same)
        (serialized_record-accepted to_string s origin l v json text (write_row db q quiet s) d
          (save_row db q origin s.id (expiry_unix s) json d).1 row_written)

  -- A save of an idle session without live tokens, on which no other handle acts meanwhile, whose
  -- attempt is granted, whose snapshot is serialized and whose statements the database accepts,
  -- succeeds: it issues the session's cookie, leaves the database as those statements do, leaves
  -- nothing to save, and leaves the session ready to be saved again or deleted, under its identity.
  pub accepted_row-Succeeds :
      Succeeds s
        (store_session db q to_string quiet s l d)
        (save_row db q origin s.id (expiry_unix s) json d).1
  unfolding store_session
  accepted_row-Succeeds =
      accepted_lem to_string s origin l v json text (write_row db q quiet s) d
        (save_row db q origin s.id (expiry_unix s) json d).1 row_written
        (store_session db q to_string quiet s l d) attempted_row-accepted
