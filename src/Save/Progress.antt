-- ===== src/Save/Progress.antt =====
-- A guarded save of src/session_save.rs that nothing disturbs.
use saysion.Prelude.{ℕ, String, ◌≡◌, refl, ◌∙◌, true, false, Option, some, arith, ok}
use saysion.Lifecycle.{ready, SessionWriteGuard}
use saysion.Session.Revision.{is_dirty}
use saysion.Session.State.{Lineage, Session}
use saysion.Session.Identity.{persistence_attempt}
use saysion.Session.Persist.{capture_revision, begin_delete}
use saysion.Session.Progress.{
  after_claim-values, IsReady, begin_delete-own, granted, guard_with, held, after_claim, captured,
  captured_lem, after_save, begun_guarded, after_save-IsSaved, saved_again,
}
use saysion.Save.{SessionSave, prepare_save, new_token, begin_write, complete_with_guard}

-- The token that an undisturbed save gets.
abbrev token : ℕ → Session → Option String → Lineage → SessionSave
token receipt s origin l = record {
  source = s;
  snapshot = record { id = s.id; expiry = s.expiry; values = (after_claim origin l).data_.values };
  revision = (capture_revision (after_claim origin l)).0;
  origin = origin;
  write_receipt = receipt;
  write_started = false;
}

module _ (receipt : ℕ) (s : Session) (origin : Option String) (l : Lineage)
    (v : IsReady s l origin) where
  prepared : prepare_save receipt l s ≡ (ok (token receipt s origin l), captured origin l)
  unfolding prepare_save new_token
  prepared =
      let (known, claim) = granted l s origin v.idle.alive v.attempt in rw (v.attempt, claim) refl

  started : begin_write (token receipt s origin l) (captured origin l) ≡ (
    ready (ok (guard_with (some receipt) true s origin)),
    record (token receipt s origin l) { write_started = true },
    held (captured origin l),
  )
  unfolding begin_write
  started =
      let (known, claim) = granted l s origin v.idle.alive v.attempt in
      rw (begun_guarded s origin l v.idle known (some receipt) true) refl

  completed :
      complete_with_guard
        (record (token receipt s origin l) { write_started = true })
        (guard_with (some receipt) true s origin)
        (held (captured origin l))
      ≡ (ok s.cookie_value, after_save true s origin l)
  unfolding complete_with_guard
  completed =
      let (_, _, alive) = captured_lem origin l in
      let living : (held (captured origin l)).destroy ≡ false = alive ∙ v.idle.alive in
      ground (arith, living)

-- The protocol of a save of an idle session without live tokens, on which no other handle acts
-- meanwhile and whose attempt is granted: `prepare_save` gives a token with the session's identity,
-- expiry and values, and with the origin of the attempt; `begin_write` gives the token its guard; and
-- with that, `complete_with_guard` issues the session's cookie, leaves nothing to save, and leaves the
-- session ready to be saved again or deleted, under its identity.
pub guarded_save_succeeds :
    (receipt : ℕ) (s : Session) (origin : Option String) (l : Lineage)
    → IsReady s l origin
    → (t : SessionSave) × (t' : SessionSave) × (g : SessionWriteGuard) × (l₁ : Lineage)
      × (l₂ : Lineage) × (l₃ : Lineage) × (prepare_save receipt l s ≡ (ok t, l₁))
      × (t.origin ≡ origin)
      × (t.snapshot.id ≡ s.id)
      × (t.snapshot.expiry ≡ s.expiry)
      × (t.snapshot.values ≡ l.data_.values)
      × (begin_write t l₁ ≡ (ready (ok g), t', l₂))
      × (complete_with_guard t' g l₂ ≡ (ok s.cookie_value, l₃))
      × (is_dirty l₃.data_ ≡ false)
      × ((persistence_attempt l₃ s).0 ≡ ok (some s.id))
      × ((begin_delete l₃ s).0 ≡ ready (ok (record { id = s.id })))
guarded_save_succeeds receipt s origin l v =
    let (known, _) = granted l s origin v.idle.alive v.attempt in
    let after = after_save-IsSaved s origin l v.idle known true v.counted in
    let m = after_save true s origin l in
    (
      token receipt s origin l,
      record (token receipt s origin l) { write_started = true },
      guard_with (some receipt) true s origin,
      captured origin l,
      held (captured origin l),
      m,
      prepared receipt s origin l v,
      refl,
      refl,
      refl,
      after_claim-values origin l,
      started receipt s origin l v,
      completed receipt s origin l v,
      after.clean,
      (saved_again s m after).1,
      begin_delete-own s m after,
    )
