-- ===== src/Session/Actions.antt =====
-- What the other handles of a clone family can do to the shared state while a store operation
-- awaits a lock: each action is a method of src/session.rs on another handle.
use saysion.Prelude.{String, List, [], ◌∷◌}
use saysion.Session.Revision
use saysion.Session.Revision.{SaveRevision, reset}
use saysion.Session.State.{Lineage, Session, insert_raw, remove, destroy}
use saysion.Session.Identity.{persistence_attempt, mark_persisted}
use saysion.Session.Persist.{capture_revision, abandon_revision}

pub data Action : Type 0 where
  inserts : String → String → Action
  removes : String → Action
  destroys resets captures : Action
  acknowledges drops : SaveRevision → Action
  attempts persists : Session → Action

unfoldable pub act : Action → Lineage → Lineage
unfolding insert_raw remove destroy capture_revision abandon_revision persistence_attempt
    mark_persisted
act (inserts key value) l = insert_raw key value l
act (removes key) l = remove key l
act destroys l = destroy l
act resets l = record l { data_ = reset l.data_ }
act captures l = (capture_revision l).1
act (acknowledges r) l = record l { data_ = Revision.acknowledge r l.data_ }
act (drops r) l = abandon_revision r l
act (attempts s) l = (persistence_attempt l s).1
act (persists s) l = mark_persisted l s

unfoldable pub act_all : List Action → Lineage → Lineage
act_all [] l = l
act_all (a ∷ as_) l = act_all as_ (act a l)
