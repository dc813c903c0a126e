-- ===== src/Memory/Client.antt =====
-- One client of the memory store, from the creation or the load of its session on.
use saysion.Prelude.{
  ℕ, String, ◌≡◌, refl, ap, if◌then◌else◌, str_eq_refl, ◌∙◌, false, none, some, List, [], arith, ok,
  Bool-cases, inl, inr, Option-cases, str_eq,
}
use saysion.Maps
use saysion.Lifecycle.{ready}
use saysion.Memory.Outcomes.{saved_record}
use saysion.Session.Revision
use saysion.Session.Revision.{SessionData, is_dirty}
use saysion.Session.State.{Lineage, Session, Owned, insert_raw, remove, set_expiry}
use saysion.Session.Cookies.{External, new, regenerate}
use saysion.Session.Identity.{persistence_origin}
use saysion.Session.Progress.{after_claim-values, granted, after_save-IsSaved}
use saysion.Session.Persist.{deletion_target, mark_loaded, snapshot}
use saysion.Memory.State.{MemoryState}
use saysion.Memory.Store.{has_source, store_session, destroy_session, load_session}
use saysion.Memory.Progress.{quiet, HasRoom, quiet_save}
use saysion.Memory.Revocation.{destroy_session_revokes}
use saysion.Memory.Ready.{
  Ready, created-Ready, loaded-Ready, edited-Ready, extended-Ready, regenerated-Ready,
  store_session-Ready, shared-Ready, stored_own,
}

-- What one client does with its session, one call after the other, while the others leave its
-- record alone.
pub data Life (x : External) : Session → Lineage → MemoryState → Type 0 where
  -- `Session::new`, whose identity is not in use
  created :
      (key : List ℕ) (o : Owned) (st : MemoryState)
      → new x key ≡ ok o
      → Maps.contains_key o.session.id st.records ≡ false
      → Life x o.session o.lineage st
  loaded :
      (now : ℕ) (cookie : String) (o : Owned) (st : MemoryState)
      → load_session x now cookie st ≡ ok (some o)
      → Life x o.session o.lineage st
  inserted :
      (key value : String) (s : Session) (l : Lineage) (st : MemoryState)
      → Life x s l st
      → Life x s (insert_raw key value l) st
  removed :
      (key : String) (s : Session) (l : Lineage) (st : MemoryState)
      → Life x s l st
      → Life x s (remove key l) st
  extended :
      (expiry : ℕ) (s : Session) (l : Lineage) (st : MemoryState)
      → Life x s l st
      → Life x (set_expiry expiry s) l st
  -- `Session::regenerate`, whose new identity is not in use
  regenerated :
      (key : List ℕ) (s s' : Session) (l : Lineage) (st : MemoryState)
      → Life x s l st
      → regenerate x l key s ≡ ok s'
      → Maps.contains_key s'.id st.records ≡ false
      → Life x s' l st
  saved :
      (s : Session) (l : Lineage) (st : MemoryState)
      → Life x s l st
      → Life x s (store_session quiet s l st).lineage (store_session quiet s l st).state
  -- Other clients do not delete the record of this one, nor create one of its identity.
  shared :
      (s : Session) (l : Lineage) (st st' : MemoryState)
      → Life x s l st
      → Maps.contains_key s.id st'.records ≡ Maps.contains_key s.id st.records
      → has_source l.persisted_id st' ≡ has_source l.persisted_id st
      → Life x s l st'

-- Whatever a client has done, and however often, it is ready.
Life-Ready :
    (x : External) (s : Session) (l : Lineage) (st : MemoryState) → Life x s l st → Ready s l st
unfolding insert_raw remove
Life-Ready x s l st (created key o st' h absent) = created-Ready x key o st h absent
Life-Ready x s l st (loaded now cookie o st' h) = loaded-Ready x now cookie o st h
Life-Ready x s l st (inserted key value s' l' st' h) =
    edited-Ready (Revision.insert_raw key value l'.data_) s l' st
      (unfold Revision.insert_raw in ground arith) (Life-Ready x s l' st h)
Life-Ready x s l st (removed key s' l' st' h) =
    edited-Ready (Revision.remove key l'.data_) s l' st (unfold Revision.remove in ground arith)
      (Life-Ready x s l' st h)
Life-Ready x s l st (extended expiry s' l' st' h) =
    extended-Ready expiry s' l st (Life-Ready x s' l st h)
Life-Ready x s l st (regenerated key old s' l' st' h e absent) =
    regenerated-Ready x key old s l st e absent (Life-Ready x old l st h)
Life-Ready x s l st (saved s' l' st' h) = store_session-Ready s l' st' (Life-Ready x s l' st' h)
Life-Ready x s l st (shared s' l' old st' h own source) =
    shared-Ready s l old st own source (Life-Ready x s l old h)

-- The record under the session's own identity is the one that a deletion removes, or is not there.
own_gone :
    (s : Session) (l : Lineage) (st : MemoryState)
    → persistence_origin l s ≡ ok l.persisted_id
    → HasRoom s l.persisted_id st
    → (if str_eq (deletion_target l s) s.id then none else Maps.get s.id st.records) ≡ none
unfolding deletion_target
own_gone s l st known room = elim (Option-cases l.persisted_id) [
  | inl unsaved ↦ ground (arith, known, unsaved, str_eq_refl s.id)
  | inr (p, e) ↦ elim (Bool-cases (str_eq p s.id)) [
    | inl same ↦ ground (arith, known, e, same)
    | inr other ↦ unfold Maps.contains_key in ground (arith, known, e, other, room.no_collision)
  ]
]

-- Whatever a client has done since it created or loaded its session, one call after the other, its
-- next undisturbed save succeeds, provided that the identities that it was given were not in use, and
-- that other clients have not deleted its record, nor created one of its identity: the save issues
-- the session's cookie, puts the session's identity, expiry and values under its identity, and leaves
-- nothing to save. If it deletes the session instead, that succeeds, and there is no record of the
-- session's identity left, nor of the one that a deletion is aimed at.
pub client_makes_progress :
    (x : External) (s : Session) (l : Lineage) (st : MemoryState)
    → Life x s l st
    → let after = store_session quiet s l st in
      let deleted = destroy_session s l st in
      (after.answer ≡ ready (ok s.cookie_value))
      × ((o : Owned) × (Maps.get s.id after.state.records ≡ some o)
          × (o.session.id ≡ s.id)
          × (o.session.expiry ≡ s.expiry)
          × (o.lineage.data_.values ≡ l.data_.values))
      × (is_dirty after.lineage.data_ ≡ false)
      × (deleted.0 ≡ ready (ok tt))
      × (Maps.get s.id deleted.2.records ≡ none)
      × (Maps.get (deletion_target l s) deleted.2.records ≡ none)
unfolding mark_loaded snapshot
client_makes_progress x s l st h =
    let v = Life-Ready x s l st h in
    let (answer, left) = quiet_save s l st l.persisted_id v in
    let (known, claim) = granted l s l.persisted_id v.idle.alive v.granted_ in
    let after = after_save-IsSaved s l.persisted_id l v.idle known false v.counted in
    let (gone, effect, _, _) =
      destroy_session_revokes s s l st st [] quiet v.idle.free v.idle.sure in
    (
      answer,
      (
        saved_record l s,
        stored_own s l st answer,
        refl,
        refl,
        ap (λ m. m.data_.values) claim ∙ after_claim-values l.persisted_id l,
      ),
      rw left after.clean,
      gone,
      effect s.id ∙ own_gone s l st known v.room,
      effect (deletion_target l s) ∙ ground (arith, str_eq_refl (deletion_target l s)),
    )
