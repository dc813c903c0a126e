-- ===== src/Memory/Loads.antt =====
-- What `load_session` of src/memory_store.rs returns, and that it returns what was stored.
use saysion.Prelude.{
  Option-cases, inl, inr, >>=-eq-ok, id_mismatch, ensure, ensure-true, str_eq_iff, ℕ, String, ◌≡◌,
  refl, ap, ◌∙◌, false, Option, none, some, arith, opt_eq, str_eq, str_eq_refl, if◌then◌else◌, ok,
  ◌>>=◌,
}
use saysion.Maps
use saysion.Maps.{Map}
use saysion.Lifecycle.{ready}
use saysion.Session.State.{Lineage, Session, Owned, is_expired, new_lineage, data_changed}
use saysion.Session.Revision.{is_dirty}
use saysion.Session.Cookies.{External, id_from_cookie_value}
use saysion.Session.Identity.{persistence_attempt}
use saysion.Session.Persist.{snapshot, mark_loaded, validate_loaded}
use saysion.Memory.State.{MemoryState}
use saysion.Memory.Store.{Schedule, store_session, load_session, find_live}
use saysion.Memory.Saves.{claimed, store_session-eq-ok}
use saysion.Memory.Outcomes.{saved_record, store_session_replaces}

-- A session as it is loaded: its saved identity, expiry and values, in a family of its own that
-- knows its identity to be persisted.
abbrev pub loaded_session : String → Option ℕ → Map String → Owned
loaded_session id expiry values = record {
  session = record {
    id = id;
    expiry = expiry;
    cookie_value = none;
    metadata_changed = false;
    rotation_from = none;
    fresh = false;
  };
  lineage = new_lineage values (some id);
}

module _ (x : External) (now : ℕ) (cookie id : String) where
  find_live-eq :
      (st : MemoryState) (o : Owned)
      → Maps.get id st.records ≡ some o
      → is_expired now o.session ≡ false
      → find_live x now id st ≡ some (snapshot o.lineage o.session)
  unfolding find_live
  find_live-eq st o g e = rw (g, find_live, e)

  validate_loaded-eq :
      (l : Lineage) (s : Session)
      → id_from_cookie_value x cookie ≡ ok id
      → s.id ≡ id
      → is_expired now s ≡ false
      → l.destroy ≡ false
      → validate_loaded x now false cookie (snapshot l s)
        ≡ ok (some (loaded_session id s.expiry l.data_.values))
  unfolding validate_loaded snapshot
  validate_loaded-eq l s c i e d =
      rw (c, ◌>>=◌, i, str_eq_refl) (ground (arith, i, e, d, str_eq_refl id))

  load-found :
      (st : MemoryState) (o : Owned)
      → id_from_cookie_value x cookie ≡ ok id
      → Maps.get id st.records ≡ some o
      → o.session.id ≡ id
      → is_expired now o.session ≡ false
      → o.lineage.destroy ≡ false
      → load_session x now cookie st
        ≡ ok (some (loaded_session id o.session.expiry o.lineage.data_.values))
  unfolding load_session
  load-found st o c g i e d =
      rw (c, ◌>>=◌) (rw (find_live-eq st o g e, validate_loaded-eq o.lineage o.session c i e d))

-- An attempt that succeeds was made on a family that is not destroyed, and leaves its data.
claimed_lem :
    (l : Lineage) (s : Session) (attempt : Option String)
    → (persistence_attempt l s).0 ≡ ok attempt
    → ((claimed l s).destroy ≡ false) × ((claimed l s).data_ ≡ l.data_)
unfolding persistence_attempt
claimed_lem l s attempt h = ground arith

-- After a save that succeeds, a cookie of its identity loads, until the saved expiry passes, the
-- identity, the expiry and the values that the session had when the save began, whatever other
-- handles edited meanwhile; and the loaded session has no unsaved changes.
pub load-store :
    (x : External) (sched : Schedule) (s : Session) (l : Lineage) (st : MemoryState)
    (issued : Option String) (now : ℕ) (cookie : String)
    → (store_session sched s l st).answer ≡ ready (ok issued)
    → id_from_cookie_value x cookie ≡ ok s.id
    → is_expired now s ≡ false
    → (o : Owned) × (load_session x now cookie (store_session sched s l st).state ≡ ok (some o))
      × (o.session.id ≡ s.id)
      × (o.session.expiry ≡ s.expiry)
      × (o.lineage.data_.values ≡ l.data_.values)
      × (data_changed o.lineage o.session ≡ false)
unfolding data_changed is_dirty new_lineage mark_loaded snapshot is_expired
load-store x sched s l st issued now cookie h c e =
    let (attempt, a, _) = store_session-eq-ok sched s l st issued h in
    let (_, origin, _, _, effect, _, _) = store_session_replaces sched s l st issued h in
    let (alive, same) = claimed_lem l s attempt a in
    let found = effect s.id ∙ pick origin in
    (
      loaded_session s.id s.expiry (claimed l s).data_.values,
      load-found x now cookie s.id (store_session sched s l st).state (saved_record l s) c found
          refl e alive,
      refl,
      refl,
      ap (λ d. d.values) same,
      refl,
    )
  where
    pick :
        (origin : Option String)
        → (if str_eq s.id s.id
            then some (saved_record l s)
            else if opt_eq origin (some s.id)
            then none
            else Maps.get s.id st.records)
          ≡ some (saved_record l s)
    pick origin = rw (str_eq_refl s.id)

module _ (x : External) (now : ℕ) (cookie : String) where
  found_record :
      (id : String) (st : MemoryState) (o : Owned)
      → find_live x now id st ≡ some o
      → (r : Owned) × (Maps.get id st.records ≡ some r) × (o ≡ snapshot r.lineage r.session)
  unfolding find_live
  found_record id st o h = elim (Option-cases (Maps.get id st.records)) [
    | inl absent ↦ absurd (ground (arith, absent))
    | inr (r, there) ↦ (r, there, ground (arith, there))
  ]

  validated :
      (id : String) (l : Lineage) (s : Session) (o : Owned)
      → id_from_cookie_value x cookie ≡ ok id
      → validate_loaded x now false cookie (snapshot l s) ≡ ok (some o)
      → (s.id ≡ id) × (o ≡ loaded_session s.id s.expiry l.data_.values)
  unfolding validate_loaded snapshot new_lineage
  validated id l s o c h =
      let (i, d, h₁) = >>=-eq-ok (id_from_cookie_value x cookie) _ h in
      let (u, m, h₂) = >>=-eq-ok (ensure (str_eq s.id i) id_mismatch) _ h₁ in
      ground (arith, c, d, h₂, (str_eq_iff s.id i).0 (ensure-true _ _ m))

  -- What a load that succeeds found.
  pub loaded_family :
      (st : MemoryState) (o : Owned)
      → load_session x now cookie st ≡ ok (some o)
      → (r : Owned) × (Maps.get r.session.id st.records ≡ some r)
        × (o ≡ loaded_session r.session.id r.session.expiry r.lineage.data_.values)
  unfolding load_session
  loaded_family st o h =
      let (id, c, h₁) = >>=-eq-ok (id_from_cookie_value x cookie) _ h in
      elim (Option-cases (find_live x now id st)) [
        | inl absent ↦ absurd (ground (arith, absent, h₁))
        | inr (p, there) ↦
            let (r, here, e) = found_record id st p there in
            let h₂ : validate_loaded x now false cookie (snapshot r.lineage r.session)
                ≡ ok (some o) =
              ground (arith, there, e, h₁) in
            let (same, k) = validated id r.lineage r.session o c h₂ in
            (r, ap (λ i. Maps.get i st.records) same ∙ here, k)
      ]
