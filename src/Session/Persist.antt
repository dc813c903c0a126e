-- ===== src/Session/Persist.antt =====
-- src/session.rs: snapshots, writes and deletions of a session, and the check of a loaded record.
use saysion.Prelude.{
  ℕ, String, Bool, false, not, ◌&&◌, Option, none, some, session_conflict, id_mismatch, Result, ok,
  err, ◌>>=◌, ◌>>◌, ensure, opt_eq, str_eq, is_some, if◌then◌else◌,
}
use saysion.Maps.{Map}
use saysion.Lifecycle
use saysion.Lifecycle.{
  Poll, pending, ready, WriteState, SessionWriteGuard, SessionDeleteGuard, drop_write, unlocked,
}
use saysion.Session.Revision.{
  SessionData, SaveRevision, with_values, capture, acknowledge, drop_revision,
}
use saysion.Session.State.{Lineage, Session, Owned, is_expired, new_lineage, destroy}
use saysion.Session.Identity.{persistence_origin, mark_persisted}
use saysion.Session.Cookies.{External, id_from_cookie_value}

unfoldable pub snapshot_values : Lineage → Session → Map String → Owned
unfolding new_lineage
snapshot_values l s values = record {
  session = record {
    id = s.id;
    expiry = s.expiry;
    cookie_value = none;
    metadata_changed = false;
    rotation_from = none;
    fresh = false;
  };
  lineage = record (new_lineage values none) { destroy = l.destroy };
}

unfoldable pub snapshot : Lineage → Session → Owned
unfolding snapshot_values
snapshot l s = snapshot_values l s l.data_.values

-- A token that begins in the lineage's data.
unfoldable pub capture_revision : Lineage → SaveRevision × Lineage
unfolding capture
capture_revision l = ((capture l.data_).0, record l { data_ = (capture l.data_).1 })

unfoldable pub persistence_snapshot : Lineage → Session → Owned × SaveRevision × Lineage
unfolding snapshot capture_revision
persistence_snapshot l s = let (revision, l') = capture_revision l in (snapshot l s, revision, l')

-- What `SessionSnapshot` and `WireSession` hold.
pub record SessionSnapshot : Type 0 where
  pub id : String
  pub expiry : Option ℕ
  pub values : Map String

unfoldable pub immutable_snapshot : Lineage → Session → SessionSnapshot × SaveRevision × Lineage
unfolding capture_revision
immutable_snapshot l s =
    let (revision, l') = capture_revision l in
    (record { id = s.id; expiry = s.expiry; values = l.data_.values }, revision, l')

-- `to_slice` is `postcard::to_slice` into a buffer of a fixed size. A failure captures nothing.
unfoldable pub serialize_bounded {ℓ} :
    {A : Type ℓ}
    → (SessionSnapshot → Result A)
    → Lineage
    → Session
    → Result (A × SaveRevision) × Lineage
unfolding capture_revision
serialize_bounded to_slice l s =
    elim (to_slice (record { id = s.id; expiry = s.expiry; values = l.data_.values })) [
      | err e ↦ (err e, l)
      | ok payload ↦ let (revision, l') = capture_revision l in (ok (payload, revision), l')
    ]

unfoldable pub acknowledge_revision : SaveRevision → Lineage → Session → Lineage × Session
unfolding acknowledge
acknowledge_revision r l s =
    (record l { data_ = acknowledge r l.data_ }, record s { metadata_changed = false })

-- A token that an early return drops.
unfoldable pub abandon_revision : SaveRevision → Lineage → Lineage
unfolding drop_revision
abandon_revision r l = record l { data_ = drop_revision r l.data_ }

unfoldable pub mark_loaded : Owned → Owned
unfolding mark_persisted
mark_loaded o = record o { lineage = mark_persisted o.lineage o.session }

unfoldable pub release_write : SessionWriteGuard → Lineage → Lineage
unfolding drop_write
release_write g l = record l { lifecycle = drop_write g l.lifecycle }

-- `persistence_origin()? != *origin` for a session that has an origin.
unfoldable pub recheck_origin : Lineage → Session → Option String → Result (Unit {0})
unfolding persistence_origin
recheck_origin l s origin =
    if is_some origin
    then (do current ← persistence_origin l s; ensure (opt_eq current origin) session_conflict)
    else ok tt

-- The part of `begin_guarded_write` after its `.await`: a guard that the check refuses is dropped.
unfoldable pub check_write :
    Lineage → Session → Option String → SessionWriteGuard → Result SessionWriteGuard × Lineage
unfolding recheck_origin release_write
check_write l s origin g = elim (recheck_origin l s origin) [
  | err e ↦ (err e, release_write g l)
  | ok _ ↦ (ok g, l)
]

unfoldable pub begin_guarded_write :
    Lineage → Session → Option String → Option ℕ → Bool → Poll (Result SessionWriteGuard) × Lineage
unfolding check_write Lifecycle.write
begin_guarded_write l s origin receipt can_outlive_future =
    let can_create = not (opt_eq origin (some s.id)) in
    let (answer, w) =
      Lifecycle.write l.destroy receipt (can_create && can_outlive_future) l.lifecycle in
    elim answer [
      | pending ↦ (pending, record l { lifecycle = w })
      | ready (err e) ↦ (ready (err e), record l { lifecycle = w })
      | ready (ok g) ↦
          let (checked, l') = check_write (record l { lifecycle = w }) s origin g in
          (ready checked, l')
    ]

unfoldable pub begin_backend_write :
    Lineage → Session → Option String → Bool → Poll (Result SessionWriteGuard) × Lineage
unfolding begin_guarded_write
begin_backend_write l s origin can_outlive_future =
    begin_guarded_write l s origin none can_outlive_future

-- The record that a deletion removes.
unfoldable pub deletion_target : Lineage → Session → String
unfolding persistence_origin
deletion_target l s = elim (persistence_origin l s) [
  | err e ↦ s.id
  | ok none ↦ s.id
  | ok (some origin) ↦ origin
]

unfoldable pub prepare_delete : Lineage → Session → String × Lineage
unfolding deletion_target destroy
prepare_delete l s = (deletion_target l s, destroy l)

unfoldable pub begin_delete : Lineage → Session → Poll (Result SessionDeleteGuard) × Lineage
unfolding deletion_target destroy Lifecycle.delete
begin_delete l s =
    let (answer, w) = Lifecycle.delete l.lifecycle in
    let l' = record (destroy l) { lifecycle = w } in
    elim answer [
      | pending ↦ (pending, l')
      | ready (err e) ↦ (ready (err e), l')
      | ready (ok g) ↦ (ready (ok (record { id = deletion_target l' s })), l')
    ]

unfoldable pub release_delete : Lineage → Lineage
unfolding Lifecycle.drop_delete
release_delete l = record l { lifecycle = Lifecycle.drop_delete l.lifecycle }

-- The data of a loaded record: a copy if other handles share it, else the same with its
-- bookkeeping settled.
unfoldable pub loaded_data : Bool → SessionData → SessionData
unfolding with_values
loaded_data is_shared d = if is_shared then with_values d.values else record d {
  persisted_revision = d.revision;
  uncertain_save = false;
  overlapping_saves = false;
}

module _ (x : External) where
  -- `is_shared` is the test `Arc::strong_count(&self.data) > 1`.
  unfoldable pub validate_loaded : ℕ → Bool → String → Owned → Result (Option Owned)
  unfolding id_from_cookie_value is_expired loaded_data unlocked
  validate_loaded now is_shared cookie_value o = do
    expected ← id_from_cookie_value x cookie_value
    ensure (str_eq o.session.id expected) id_mismatch
    if is_expired now o.session
        then ok none
        else if o.lineage.destroy
        then err session_conflict
        else ok (
            some (record {
              session = record o.session {
                cookie_value = none;
                metadata_changed = false;
                rotation_from = none;
                fresh = false;
              };
              lineage = record {
                data_ = loaded_data is_shared o.lineage.data_;
                persisted_id = some o.session.id;
                creation_claimed = false;
                lifecycle = unlocked;
                destroy = false;
              };
            }))
