-- ===== src/Session/Progress.antt =====
-- Saves of src/session.rs that nothing disturbs: what the attempt, the lock and the acknowledgement
-- do to a clone family that is idle.
use saysion.Prelude.{
  ℕ, String, ◌≡◌, ◌≢◌, refl, ap, ◌∙◌, Bool, not, ◌&&◌, opt_eq, true, false, Option, none, some,
  arith, ok, str_eq_iff, Result-cases, inl, inr, str_eq_refl, opt_eq_iff,
}
use saysion.Lifecycle.{ready, SessionWriteGuard}
use saysion.Session.Revision.{SessionData, capture, acknowledge, is_dirty}
use saysion.Session.State.{Lineage, Session}
use saysion.Session.Identity.{
  persistence_attempt, persistence_origin, may_replace, claim_creation, mark_persisted,
}
use saysion.Session.Persist.{
  recheck_origin, capture_revision, begin_backend_write, begin_delete, deletion_target,
  begin_guarded_write, check_write, acknowledge_revision, release_write,
}

-- No guard is alive, no write is in doubt, and the session is not destroyed.
pub record IsIdle (l : Lineage) : Type 0 where
  pub free : l.lifecycle.locked ≡ false
  pub sure : l.lifecycle.uncertain ≡ false
  pub alive : l.destroy ≡ false

-- What an undisturbed save needs of its family.
pub record IsReady (s : Session) (l : Lineage) (origin : Option String) : Type 0 where
  pub idle : IsIdle l
  pub attempt : (persistence_attempt l s).0 ≡ ok origin
  pub counted : l.data_.active_saves ≡ 0

-- The guard that a save gets, and the lineage that it holds.
abbrev pub guard_with : Option ℕ → Bool → Session → Option String → SessionWriteGuard
guard_with receipt can_outlive s origin = record {
  receipt = receipt;
  uncertain_on_drop = not (opt_eq origin (some s.id)) && can_outlive;
  settled = false;
}

abbrev pub guard_of : Bool → Session → Option String → SessionWriteGuard
guard_of can_outlive s origin = guard_with none can_outlive s origin

abbrev pub held : Lineage → Lineage
held l = record l { lifecycle = record l.lifecycle { locked = true } }

abbrev pub after_claim : Option String → Lineage → Lineage
after_claim none l = record l { creation_claimed = true }
after_claim (some o) l = l

-- What an attempt that is granted has checked, and what it changes.
pub granted :
    (l : Lineage) (s : Session) (origin : Option String)
    → l.destroy ≡ false
    → (persistence_attempt l s).0 ≡ ok origin
    → (persistence_origin l s ≡ ok origin) × ((persistence_attempt l s).1 ≡ after_claim origin l)
unfolding persistence_attempt claim_creation
granted l s origin alive h = elim (Result-cases (persistence_origin l s)) [
  | inl (e, bad) ↦ absurd (ground (arith, alive, bad, h))
  | inr (none, good) ↦ ground (arith, alive, good, h)
  | inr (some o, good) ↦ ground (arith, alive, good, h)
]

-- A later check finds the origin that the attempt found.
pub origin_kept :
    (l m : Lineage) (s : Session) (origin : Option String)
    → m.persisted_id ≡ l.persisted_id
    → persistence_origin l s ≡ ok origin
    → origin ≢ none
    → persistence_origin m s ≡ ok origin
unfolding persistence_origin
origin_kept l m s origin e h known = ground (arith, e, h)

rechecked :
    (l m : Lineage) (s : Session) (origin : Option String)
    → m.persisted_id ≡ l.persisted_id
    → persistence_origin l s ≡ ok origin
    → recheck_origin m s origin ≡ ok tt
unfolding recheck_origin
rechecked l m s none e h = refl
rechecked l m s (some o) e h =
    ground (arith, origin_kept l m s (some o) e h (λ k. cc), str_eq_refl o)

pub after_claim-values :
    (origin : Option String) (l : Lineage) → (after_claim origin l).data_.values ≡ l.data_.values
after_claim-values none l = refl
after_claim-values (some o) l = refl

-- The lineage of a save after its capture.
abbrev pub captured : Option String → Lineage → Lineage
captured origin l = (capture_revision (after_claim origin l)).1

pub captured_lem :
    (origin : Option String) (l : Lineage)
    → ((captured origin l).persisted_id ≡ l.persisted_id)
      × ((captured origin l).lifecycle ≡ l.lifecycle)
      × ((captured origin l).destroy ≡ l.destroy)
unfolding capture_revision
captured_lem none l = (refl, refl, refl)
captured_lem (some o) l = (refl, refl, refl)

-- The lineage that a save leaves once it has acknowledged its capture.
abbrev pub after_save : Bool → Session → Option String → Lineage → Lineage
after_save can_outlive s origin l =
    release_write (record (guard_of can_outlive s origin) { settled = true })
      (acknowledge_revision (capture_revision (after_claim origin l)).0
        (mark_persisted (held (captured origin l)) s) s).0

-- A family that is ready for the next save: it is idle, it knows the record of the session, and
-- it counts no live token.
pub record IsSaved (s : Session) (l : Lineage) : Type 0 where
  pub idle : IsIdle l
  pub own : l.persisted_id ≡ some s.id
  pub clean : is_dirty l.data_ ≡ false
  pub counted : l.data_.active_saves ≡ 0

-- Whoever may write the record makes its identity the persisted one, and nothing else.
mark_persisted_lem :
    (l m : Lineage) (s : Session) (origin : Option String)
    → m.persisted_id ≡ l.persisted_id
    → persistence_origin l s ≡ ok origin
    → mark_persisted m s ≡ record m { persisted_id = some s.id }
unfolding persistence_origin mark_persisted may_replace
mark_persisted_lem l m s none same h = ground (arith, same, h)
mark_persisted_lem l m s (some o) same h =
    ground (arith, same, h, str_eq_iff o s.id, opt_eq_iff s.rotation_from (some o))

-- An acknowledgement that follows its capture, with no other token alive.
acknowledge-capture :
    (d : SessionData)
    → d.active_saves ≡ 0
    → (is_dirty (acknowledge (capture d).0 (capture d).1) ≡ false)
      × ((acknowledge (capture d).0 (capture d).1).active_saves ≡ 0)
unfolding acknowledge capture is_dirty
acknowledge-capture d calm = ground arith

module _ (s : Session) (origin : Option String) (l : Lineage) (v : IsIdle l)
    (known : persistence_origin l s ≡ ok origin) where
  pub begun_guarded :
      (receipt : Option ℕ) (can_outlive : Bool)
      → begin_guarded_write (captured origin l) s origin receipt can_outlive
        ≡ (ready (ok (guard_with receipt can_outlive s origin)), held (captured origin l))
  begun_guarded receipt can_outlive =
      let (same, cycle, alive) = captured_lem origin l in
      let again = rechecked l (held (captured origin l)) s origin same known in
      unfold begin_guarded_write check_write in
      ground (arith, same, cycle, alive, v.free, v.sure, v.alive, again)

  pub begun :
      (can_outlive : Bool)
      → begin_backend_write (captured origin l) s origin can_outlive
        ≡ (ready (ok (guard_of can_outlive s origin)), held (captured origin l))
  begun can_outlive = unfold begin_backend_write in begun_guarded none can_outlive

  pub after_save-IsSaved :
      (can_outlive : Bool)
      → l.data_.active_saves ≡ 0
      → IsSaved s (after_save can_outlive s origin l)
  unfolding release_write acknowledge_revision capture_revision
  after_save-IsSaved can_outlive calm =
      let (same, cycle, alive) = captured_lem origin l in
      let moved = mark_persisted_lem l (held (captured origin l)) s origin same known in
      let settled = acknowledge-capture (after_claim origin l).data_ (after_claim-calm origin) in
      rw moved (record {
        idle = record {
          free = refl;
          sure = ap (λ w. w.uncertain) cycle ∙ v.sure;
          alive = alive ∙ v.alive;
        };
        own = refl;
        clean = settled.0;
        counted = settled.1;
      })
    where
      after_claim-calm : (o : Option String) → (after_claim o l).data_.active_saves ≡ 0
      after_claim-calm none = calm
      after_claim-calm (some id) = calm

-- A saved session may be saved again, and deletes its own record.
pub saved_again :
    (s : Session) (l : Lineage)
    → IsSaved s l
    → (persistence_origin l s ≡ ok (some s.id)) × ((persistence_attempt l s).0 ≡ ok (some s.id))
unfolding persistence_attempt persistence_origin claim_creation may_replace
saved_again s l v = ground (arith, v.own, v.idle.alive, str_eq_refl s.id)

pub begin_delete-own :
    (s : Session) (l : Lineage)
    → IsSaved s l
    → (begin_delete l s).0 ≡ ready (ok (record { id = s.id }))
unfolding begin_delete deletion_target
begin_delete-own s l v = ground (arith, v.idle.free, v.idle.sure, (saved_again s l v).0)
