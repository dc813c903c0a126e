-- ===== src/Session/Identity.antt =====
-- src/session.rs: who may write the record of a session. A fresh session may create its record
-- once; a saved one may update it; a regenerated one may replace its own record; a clone that
-- another one's rotation has overtaken may do nothing.
use saysion.Prelude.{
  String, Bool, true, not, ◌||◌, Option, none, some, session_conflict, Result, ok, err, opt_eq,
  str_eq, if◌then◌else◌,
}
use saysion.Session.State.{Lineage, Session}

-- The second check of `persistence_origin`.
unfoldable pub may_replace : Session → String → Bool
may_replace s id = str_eq id s.id || opt_eq s.rotation_from (some id)

unfoldable pub persistence_origin : Lineage → Session → Result (Option String)
unfolding may_replace
persistence_origin l s = elim l.persisted_id [
  | none ↦ if not s.fresh || l.creation_claimed then err session_conflict else ok none
  | some id ↦ if may_replace s id then ok (some id) else err session_conflict
]

unfoldable pub mark_persisted : Lineage → Session → Lineage
mark_persisted l s = elim l.persisted_id [
  | none ↦ record l { persisted_id = some s.id }
  | some id ↦ if opt_eq s.rotation_from (some id) then record l { persisted_id = some s.id } else l
]

-- `PersistenceAttempt` is its origin. The compare-exchange fails if the flag is set.
unfoldable pub claim_creation : Lineage → Option String → Result (Option String) × Lineage
claim_creation l (some origin) = (ok (some origin), l)
claim_creation l none =
    if l.creation_claimed
    then (err session_conflict, l)
    else (ok none, record l { creation_claimed = true })

unfoldable pub persistence_attempt : Lineage → Session → Result (Option String) × Lineage
unfolding claim_creation persistence_origin
persistence_attempt l s =
    if l.destroy
    then (err session_conflict, l)
    else elim (persistence_origin l s) [ err e ↦ (err e, l) | ok origin ↦ claim_creation l origin ]

-- `regenerate`, up to the new identity: `id` and `cookie` are those of the new random key.
unfoldable pub rotate : Lineage → String → String → Session → Session
rotate l id cookie s = record s {
  rotation_from =
      if opt_eq l.persisted_id (some s.id) || opt_eq s.rotation_from l.persisted_id
      then l.persisted_id
      else s.rotation_from;
  id = id;
  cookie_value = some cookie;
  metadata_changed = true;
}
