-- ===== src/Save.antt =====
-- src/session_save.rs: `SessionSave`, the save token that a store of its own is handed. A guard that
-- is passed to a token is one of the same clone family.
pub mod Protocol
pub mod Progress
use saysion.Prelude.{
  ℕ, String, Bool, true, false, not, ◌||◌, Option, none, some, Error, session_conflict, Result, ok,
  err, ◌>>=◌, ◌>>◌, ensure, opt_eq, is_some, if◌then◌else◌,
}
use saysion.Maps
use saysion.Lifecycle
use saysion.Lifecycle.{Poll, ready, SessionWriteGuard, matches, finish, require_cleanup}
use saysion.Session.Revision.{SaveRevision}
use saysion.Session.State.{Lineage, Session, into_cookie_value}
use saysion.Session.Identity.{persistence_attempt, persistence_origin, mark_persisted}
use saysion.Session.Persist.{
  SessionSnapshot, immutable_snapshot, begin_guarded_write, release_write, acknowledge_revision,
  abandon_revision, recheck_origin,
}

-- `SessionSnapshot::get_raw`
unfoldable pub get_raw : String → SessionSnapshot → Option String
get_raw key snap = Maps.get key snap.values

pub record SessionSave : Type 0 where
  pub source : Session
  pub snapshot : SessionSnapshot
  pub revision : SaveRevision
  pub origin : Option String
  pub write_receipt : ℕ
  pub write_started : Bool

-- `SessionSave::session` and `SessionSave::origin`
unfoldable pub session : SessionSave → SessionSnapshot
session v = v.snapshot

unfoldable pub origin_of : SessionSave → Option String
origin_of v = v.origin

-- The part of `SessionSave::new` after the attempt.
unfoldable pub new_token :
    ℕ → Session → Result (Option String) → Lineage → Result SessionSave × Lineage
unfolding immutable_snapshot
new_token receipt s (err e) l = (err e, l)
new_token receipt s (ok origin) l =
    let (snap, r, l') = immutable_snapshot l s in
    (
      ok (record {
        source = s;
        snapshot = snap;
        revision = r;
        origin = origin;
        write_receipt = receipt;
        write_started = false;
      }),
      l',
    )

-- `SessionSave::new`, and so `Session::prepare_save`; `receipt` is the address of a new `Arc`.
unfoldable pub prepare_save : ℕ → Lineage → Session → Result SessionSave × Lineage
unfolding persistence_attempt new_token
prepare_save receipt l s =
    let (attempt, l') = persistence_attempt l s in new_token receipt s attempt l'

unfoldable pub begin_write :
    SessionSave → Lineage → Poll (Result SessionWriteGuard) × SessionSave × Lineage
unfolding begin_guarded_write
begin_write v l =
    if v.write_started
    then (ready (err session_conflict), v, l)
    else let (answer, l') = begin_guarded_write l v.source v.origin (some v.write_receipt) true in
      (answer, record v { write_started = true }, l')

-- Dropping a token drops its revision.
unfoldable pub drop_save : SessionSave → Lineage → Lineage
unfolding abandon_revision
drop_save v l = abandon_revision v.revision l

unfoldable pub acknowledge_save : SessionSave → Lineage → Lineage
unfolding mark_persisted acknowledge_revision
acknowledge_save v l = (acknowledge_revision v.revision (mark_persisted l v.source) v.source).0

-- The part of `complete_with_guard` from the answer of `finish` on. A refused guard is marked for
-- cleanup again, and dropped with the token.
unfoldable pub settle_save :
    SessionSave → Result (Unit {0}) → SessionWriteGuard → Lineage → Result (Option String) × Lineage
unfolding release_write drop_save acknowledge_save require_cleanup into_cookie_value
settle_save v (err e) g l = (err e, release_write (require_cleanup g) (drop_save v l))
settle_save v (ok _) g l = (ok (into_cookie_value v.source), release_write g (acknowledge_save v l))

unfoldable pub complete_with_guard :
    SessionSave → SessionWriteGuard → Lineage → Result (Option String) × Lineage
unfolding matches finish settle_save
complete_with_guard v g l =
    if not (matches v.write_receipt g)
    then (err session_conflict, release_write g (drop_save v l))
    else let (answer, g') = finish l.destroy g in settle_save v answer g' l

unfoldable pub confirm_removed :
    SessionSave → SessionWriteGuard → Lineage → Result (Unit {0}) × Lineage
unfolding matches release_write drop_save Lifecycle.confirm_removed
confirm_removed v g l =
    if not (matches v.write_receipt g)
    then (err session_conflict, release_write g (drop_save v l))
    else (ok tt, release_write (Lifecycle.confirm_removed g) (drop_save v l))

unfoldable pub validate_current : SessionSave → Lineage → Result (Unit {0})
unfolding recheck_origin
validate_current v l =
    if l.destroy then err session_conflict else recheck_origin l v.source v.origin

unfoldable pub complete : SessionSave → Lineage → Option String × Lineage
unfolding drop_save acknowledge_save into_cookie_value
complete v l =
    if l.destroy || v.write_started
    then (none, drop_save v l)
    else (into_cookie_value v.source, acknowledge_save v l)
