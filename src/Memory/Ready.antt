-- ===== src/Memory/Ready.antt =====
-- What makes a client of the memory store ready to save, and that each of its steps keeps it so.
use saysion.Prelude.{
  ℕ, String, ◌≡◌, refl, sym, ap, str_eq_refl, ◌∙◌, true, false, not, ◌||◌, opt_eq, some, List,
  arith, ok, is_some, inl, inr, Option-cases, >>=-eq-ok,
}
use saysion.Maps
use saysion.Lifecycle.{ready}
use saysion.Memory.Outcomes.{saved_record, store_session_replaces}
use saysion.Session.Revision.{SessionData}
use saysion.Session.State.{Lineage, Session, Owned, new_lineage, set_expiry}
use saysion.Session.Cookies.{
  External, id_from_cookie_value, generate_cookie, fresh_session, new, regenerate,
}
use saysion.Session.Identity.{persistence_attempt, may_replace, rotate}
use saysion.Session.Rotation.{rotate-Holds}
use saysion.Session.Progress.{IsSaved, granted, after_save, after_save-IsSaved, saved_again}
use saysion.Memory.State.{MemoryState}
use saysion.Memory.Store.{has_source, store_session, load_session}
use saysion.Memory.Progress.{quiet, IsSavable, quiet_save}
use saysion.Memory.Loads.{loaded_family}

abbrev pub Ready : Session → Lineage → MemoryState → Type 0
Ready s l st = IsSavable s l st l.persisted_id

new-eq-ok :
    (x : External) (key : List ℕ) (o : Owned)
    → new x key ≡ ok o
    → (id : String) × (o ≡ fresh_session x (generate_cookie x key) id)
unfolding new
new-eq-ok x key o h =
    let (id, c, e) = >>=-eq-ok (id_from_cookie_value x (generate_cookie x key)) _ h in (id, cc)

pub created-Ready :
    (x : External) (key : List ℕ) (o : Owned) (st : MemoryState)
    → new x key ≡ ok o
    → Maps.contains_key o.session.id st.records ≡ false
    → Ready o.session o.lineage st
unfolding fresh_session
created-Ready x key o st h absent =
    let (id, e) = new-eq-ok x key o h in
    let unused = ap (λ p. Maps.contains_key p.session.id st.records) (sym e) ∙ absent in
    rw e (record {
      idle = record { free = refl; sure = refl; alive = refl };
      granted_ = unfold persistence_attempt in refl;
      room = record { source = unfold has_source in refl; no_collision = ground (arith, unused) };
      counted = refl;
    })

pub loaded-Ready :
    (x : External) (now : ℕ) (cookie : String) (o : Owned) (st : MemoryState)
    → load_session x now cookie st ≡ ok (some o)
    → Ready o.session o.lineage st
unfolding new_lineage
loaded-Ready x now cookie o st h =
    let (r, here, e) = loaded_family x now cookie st o h in
    rw e (record {
      idle = record { free = refl; sure = refl; alive = refl };
      granted_ = unfold persistence_attempt in ground (arith, str_eq_refl r.session.id);
      room = record {
        source = unfold has_source Maps.contains_key in ap is_some here;
        no_collision = ground (arith, str_eq_refl r.session.id);
      };
      counted = refl;
    })

pub edited-Ready :
    (d : SessionData) (s : Session) (l : Lineage) (st : MemoryState)
    → d.active_saves ≡ l.data_.active_saves
    → Ready s l st
    → Ready s (record l { data_ = d }) st
edited-Ready d s l st same v = record {
  idle = record { free = v.idle.free; sure = v.idle.sure; alive = v.idle.alive };
  granted_ = unfold persistence_attempt in ground (arith, v.granted_);
  room = v.room;
  counted = same ∙ v.counted;
}

pub extended-Ready :
    (expiry : ℕ) (s : Session) (l : Lineage) (st : MemoryState)
    → Ready s l st
    → Ready (set_expiry expiry s) l st
extended-Ready expiry s l st v = record {
  idle = v.idle;
  granted_ = unfold persistence_attempt set_expiry in ground (arith, v.granted_);
  room = record {
    source = v.room.source;
    no_collision = unfold set_expiry in ground (arith, v.room.no_collision);
  };
  counted = v.counted;
}

regenerate-eq-ok :
    (x : External) (key : List ℕ) (s s' : Session) (l : Lineage)
    → regenerate x l key s ≡ ok s'
    → (id : String) × (s' ≡ rotate l id (generate_cookie x key) s)
unfolding regenerate
regenerate-eq-ok x key s s' l h =
    let (id, c, e) = >>=-eq-ok (id_from_cookie_value x (generate_cookie x key)) _ h in (id, cc)

rotate-granted :
    (id cookie : String) (l : Lineage) (s : Session)
    → (persistence_attempt l s).0 ≡ ok l.persisted_id
    → (persistence_attempt l (rotate l id cookie s)).0 ≡ ok l.persisted_id
unfolding persistence_attempt
rotate-granted id cookie l s h = elim (Option-cases l.persisted_id) [
  | inl unsaved ↦ unfold rotate in ground (arith, unsaved, h)
  | inr (p, known) ↦
      let may : may_replace s p ≡ true = ground (arith, known, h) in
      ground (arith, h, rotate-Holds l id cookie s p (known, may))
]

pub regenerated-Ready :
    (x : External) (key : List ℕ) (s s' : Session) (l : Lineage) (st : MemoryState)
    → regenerate x l key s ≡ ok s'
    → Maps.contains_key s'.id st.records ≡ false
    → Ready s l st
    → Ready s' l st
regenerated-Ready x key s s' l st h absent v =
    let (id, e) = regenerate-eq-ok x key s s' l h in
    let unused = ap (λ t. Maps.contains_key t.id st.records) (sym e) ∙ absent in
    rw e (record {
      idle = v.idle;
      granted_ = rotate-granted id (generate_cookie x key) l s v.granted_;
      room = record {
        source = v.room.source;
        no_collision = unfold rotate in ground (arith, unused);
      };
      counted = v.counted;
    })

pub stored_own :
    (s : Session) (l : Lineage) (st : MemoryState)
    → (store_session quiet s l st).answer ≡ ready (ok s.cookie_value)
    → Maps.get s.id (store_session quiet s l st).state.records ≡ some (saved_record l s)
stored_own s l st h =
    let (_, origin, _, _, effect, _, _) = store_session_replaces quiet s l st s.cookie_value h in
    effect s.id ∙ ground (arith, str_eq_refl s.id)

IsSaved-Ready :
    (s : Session) (l : Lineage) (st : MemoryState)
    → IsSaved s l
    → Maps.contains_key s.id st.records ≡ true
    → Ready s l st
IsSaved-Ready s l st v here = record {
  idle = v.idle;
  granted_ = (saved_again s l v).1 ∙ ap ok (sym v.own);
  room = record {
    source = ap (λ p. has_source p st) v.own ∙ (unfold has_source in here);
    no_collision = ground (arith, v.own, str_eq_refl s.id);
  };
  counted = v.counted;
}

pub store_session-Ready :
    (s : Session) (l : Lineage) (st : MemoryState)
    → Ready s l st
    → Ready s (store_session quiet s l st).lineage (store_session quiet s l st).state
store_session-Ready s l st v =
    let (answer, left) = quiet_save s l st l.persisted_id v in
    let own = stored_own s l st answer in
    let (known, _) = granted l s l.persisted_id v.idle.alive v.granted_ in
    let after = after_save-IsSaved s l.persisted_id l v.idle known false v.counted in
    rw left (
      IsSaved-Ready s (after_save false s l.persisted_id l) (store_session quiet s l st).state after
        (unfold Maps.contains_key in ap is_some own))

pub shared-Ready :
    (s : Session) (l : Lineage) (st st' : MemoryState)
    → Maps.contains_key s.id st'.records ≡ Maps.contains_key s.id st.records
    → has_source l.persisted_id st' ≡ has_source l.persisted_id st
    → Ready s l st
    → Ready s l st'
shared-Ready s l st st' own source v = record {
  idle = v.idle;
  granted_ = v.granted_;
  room = record {
    source = source ∙ v.room.source;
    no_collision = ap (λ b. opt_eq l.persisted_id (some s.id) || not b) own ∙ v.room.no_collision;
  };
  counted = v.counted;
}
