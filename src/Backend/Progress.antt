-- ===== src/Backend/Progress.antt =====
-- Saves that nothing disturbs and that the backend accepts, in each store with a backend.
use saysion.Prelude.{
  String, ◌≡◌, refl, ap, sym, ◌∙◌, true, Option, some, [], arith, Result, ok, false,
}
use saysion.Lifecycle.{ready, SessionWriteGuard}
use saysion.Session.Revision.{SaveRevision, is_dirty}
use saysion.Session.State.{Lineage, Session, Owned, is_destroyed}
use saysion.Session.Identity.{persistence_attempt}
use saysion.Session.Persist.{snapshot, capture_revision, begin_delete}
use saysion.Session.Progress.{
  IsReady, begin_delete-own, IsSaved, guard_of, held, after_claim, captured, captured_lem,
  after_save, begun, granted, after_save-IsSaved, saved_again,
}
use saysion.Memory.Store.{confirm_write}
use saysion.Backend.{
  Schedule, Outcome, finish_record, write_record, serialized_record, attempted_record,
  locked_record,
}

-- Nobody else touches the session meanwhile.
abbrev pub quiet : Schedule
quiet = record { before_lock = []; before_finish = []; after_finish = [] }

-- What a write that was accepted answers and leaves.
abbrev pub accepted :
    {D : Type 0} → Session → SaveRevision → SessionWriteGuard → Lineage → D → Outcome D
accepted s r g l d = record {
  answer = ready (ok s.cookie_value);
  lineage = confirm_write [] s r (record g { settled = true }) l;
  rows = d;
}

pub write_record-accepted :
    {D : Type 0} (delete : String → D → Result (Unit {0}) × D) (save : D → Result (Unit {0}) × D)
    (s : Session) (r : SaveRevision) (g : SessionWriteGuard) (l : Lineage) (d : D)
    → l.destroy ≡ false
    → (save d).0 ≡ ok tt
    → write_record delete quiet s save r g l d ≡ accepted s r g l (save d).1
unfolding write_record finish_record
write_record-accepted delete save s r g l d alive good = ground (arith, alive, good)

-- A save that succeeds: it issues the cookie of the session, the backend has what the write left,
-- there is nothing more to save, and the session may be saved again or deleted, under its identity.
abbrev pub Succeeds : {D : Type 0} → Session → Outcome D → D → Type 0
Succeeds s w rows =
    (w.answer ≡ ready (ok s.cookie_value))
    × (w.rows ≡ rows)
    × (is_dirty w.lineage.data_ ≡ false)
    × ((persistence_attempt w.lineage s).0 ≡ ok (some s.id))
    × ((begin_delete w.lineage s).0 ≡ ready (ok (record { id = s.id })))

module _ {D : Type 0} (to_string : Owned → Result String) (s : Session) (origin : Option String)
    (l : Lineage) (v : IsReady s l origin) (json : String)
    (text : to_string (snapshot (persistence_attempt l s).1 s) ≡ ok json)
    (write : Option String → String → SaveRevision → SessionWriteGuard → Lineage → D → Outcome D)
    (d d' : D)
    (done : write origin json
        (capture_revision (after_claim origin l)).0
        (guard_of true s origin)
        (held (captured origin l))
        d
      ≡ accepted s
          (capture_revision (after_claim origin l)).0
          (guard_of true s origin)
          (held (captured origin l))
          d') where
  -- The whole save, by its write.
  pub serialized_record-accepted :
      serialized_record quiet s origin
        (write origin)
        (capture_revision (after_claim origin l)).0
        (ok json)
        (captured origin l)
        d
      ≡ record {
        answer = ready (ok s.cookie_value);
        lineage = after_save true s origin l;
        rows = d';
      }
  unfolding serialized_record locked_record confirm_write
  serialized_record-accepted =
      let (known, claim) = granted l s origin v.idle.alive v.attempt in
      rw (begun s origin l v.idle known true) done

  pub attempted_record-accepted :
      attempted_record to_string quiet s write
        (persistence_attempt l s).0
        (persistence_attempt l s).1
        d
      ≡ record {
        answer = ready (ok s.cookie_value);
        lineage = after_save true s origin l;
        rows = d';
      }
  unfolding attempted_record
  attempted_record-accepted =
      let (known, claim) = granted l s origin v.idle.alive v.attempt in
      let (_, _, alive) = captured_lem origin l in
      let same : to_string (snapshot (after_claim origin l) s) ≡ ok json =
        ap (λ m. to_string (snapshot m s)) (sym claim) ∙ text in
      let living : is_destroyed (after_claim origin l) ≡ false =
        unfold is_destroyed in alive ∙ v.idle.alive in
      rw (v.attempt, claim, same) (ground (arith, living, serialized_record-accepted))

  pub accepted-IsSaved : IsSaved s (after_save true s origin l)
  accepted-IsSaved =
      let (known, claim) = granted l s origin v.idle.alive v.attempt in
      after_save-IsSaved s origin l v.idle known true v.counted

  pub accepted_lem :
      (w : Outcome D)
      → w ≡ record {
        answer = ready (ok s.cookie_value);
        lineage = after_save true s origin l;
        rows = d';
      }
      → Succeeds s w d'
  accepted_lem w e =
      let saved = accepted-IsSaved in
      rw e (
        refl,
        refl,
        saved.clean,
        (saved_again s (after_save true s origin l) saved).1,
        begin_delete-own s (after_save true s origin l) saved,
      )
