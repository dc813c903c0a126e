-- ===== src/Redis/Progress.antt =====
-- Saves to the Redis store that the server accepts.
use saysion.Prelude.{
  ℕ, String, ◌≡◌, ◌∙◌, true, Option, Result, ok, Bool, false, not, str_eq, none, some,
  if◌then◌else◌, arith, inl, inr, Option-cases, Bool-cases, ◌⊎◌, refl,
}
use saysion.Lifecycle.{SessionWriteGuard}
use saysion.Session.Revision.{SaveRevision}
use saysion.Session.State.{Lineage, Session, Owned, expires_in}
use saysion.Session.Identity.{persistence_attempt}
use saysion.Session.Persist.{snapshot, capture_revision}
use saysion.Session.Progress.{IsReady, guard_of, held, after_claim, captured, captured_lem}
use saysion.Backend.{write_record}
use saysion.Backend.Progress.{
  quiet, accepted, Succeeds, write_record-accepted, attempted_record-accepted, accepted_lem,
}
use saysion.Redis.Commands.{Server}
use saysion.Redis.Outcomes.{Timed, TimedBy}
use saysion.Redis.{
  ttl_millis, rotate_entry, set_entry, delete_entry, timed_entry, rotated_entry, own_entry,
  write_entry, store_session,
}

module _ {D : Type 0} (server : Server D) (prefix : String) (now : ℕ) (s : Session) where
  -- The command of a save of a live session, with its time to live.
  abbrev pub command : Option String → String → Option ℕ → D → Result (Unit {0}) × D
  command none json px d = set_entry server prefix false s.id json px d
  command (some old_id) json px d =
      if not (str_eq old_id s.id)
      then rotate_entry server prefix old_id s.id json (elim px [ none ↦ 0 | some millis ↦ millis ])
          d
      else set_entry server prefix true s.id json px d

  -- The two ways in which a session is live.
  live_cases :
      (px : Option ℕ)
      → Timed now s px
      → ((s.expiry ≡ none) × (expires_in now s ≡ none) × (px ≡ none))
        ⊎ ((ttl : ℕ) × (millis : ℕ) × ((expiry : ℕ) × (s.expiry ≡ some expiry))
            × (expires_in now s ≡ some ttl)
            × (ttl_millis ttl ≡ ok millis)
            × (px ≡ some millis))
  live_cases px timed = by_time (expires_in now s) refl timed
    where
      by_time :
          (t : Option ℕ)
          → expires_in now s ≡ t
          → TimedBy t s px
          → ((s.expiry ≡ none) × (expires_in now s ≡ none) × (px ≡ none))
            ⊎ ((ttl : ℕ) × (millis : ℕ) × ((expiry : ℕ) × (s.expiry ≡ some expiry))
                × (expires_in now s ≡ some ttl)
                × (ttl_millis ttl ≡ ok millis)
                × (px ≡ some millis))
      by_time none e (forever, p) = inl (forever, e, p)
      by_time (some ttl) e (millis, fits, p) = elim (Option-cases s.expiry) [
        | inl forever ↦ absurd (unfold expires_in in ground (arith, forever, e))
        | inr expiring ↦ inr (ttl, millis, expiring, e, fits, p)
      ]

  module _ (json : String) (px : Option ℕ) (r : SaveRevision) (g : SessionWriteGuard) (l : Lineage)
      (d : D) (timed : Timed now s px) where
    own_entry-command :
        (replaces : Bool)
        → own_entry server prefix quiet s now replaces json r g l d
          ≡ write_record
              (delete_entry server prefix)
              quiet
              s
              (set_entry server prefix replaces s.id json px)
              r
              g
              l
              d
    unfolding own_entry timed_entry
    own_entry-command replaces = elim (live_cases px timed) [
      | inl (forever, e, p) ↦ rw (p, own_entry, e, forever) refl
      | inr (ttl, millis, _, e, fits, p) ↦ rw (p, own_entry, e, timed_entry, fits) refl
    ]

    rotated_entry-command :
        (old_id : String)
        → rotated_entry server prefix quiet s now old_id json r g l d
          ≡ write_record
              (delete_entry server prefix)
              quiet
              s
              (rotate_entry server prefix old_id s.id json
                (elim px [ none ↦ 0 | some millis ↦ millis ]))
              r
              g
              l
              d
    unfolding rotated_entry timed_entry
    rotated_entry-command old_id = elim (live_cases px timed) [
      | inl (forever, e, p) ↦ rw (p, rotated_entry, forever) refl
      | inr (ttl, millis, (expiry, expiring), e, fits, p) ↦
          rw (p, rotated_entry, expiring, e, timed_entry, fits) refl
    ]

    write_entry-command :
        (origin : Option String)
        → write_entry server prefix quiet s now origin json r g l d
          ≡ write_record (delete_entry server prefix) quiet s (command origin json px) r g l d
    unfolding write_entry
    write_entry-command none = own_entry-command false
    write_entry-command (some o) = elim (Bool-cases (str_eq o s.id)) [
      | inl same ↦ ground (arith, same, own_entry-command true)
      | inr other ↦ ground (arith, other, rotated_entry-command o)
    ]

module _ {D : Type 0} (server : Server D) (prefix : String) (now : ℕ)
    (to_string : Owned → Result String) (s : Session) (origin : Option String) (l : Lineage)
    (v : IsReady s l origin) (json : String)
    (text : to_string (snapshot (persistence_attempt l s).1 s) ≡ ok json) (px : Option ℕ)
    (timed : Timed now s px) (d : D)
    (good : (command server prefix now s origin json px d).0 ≡ ok tt) where
  entry_written :
      write_entry server prefix quiet s now origin json
        (capture_revision (after_claim origin l)).0
        (guard_of true s origin)
        (held (captured origin l))
        d
      ≡ accepted s
          (capture_revision (after_claim origin l)).0
          (guard_of true s origin)
          (held (captured origin l))
          (command server prefix now s origin json px d).1
  entry_written =
      let (_, _, alive) = captured_lem origin l in
      write_entry-command server prefix now s json px (capture_revision (after_claim origin l)).0
        (guard_of true s origin) (held (captured origin l)) d timed origin
      ∙ write_record-accepted (delete_entry server prefix)
          (command server prefix now s origin json px) s (capture_revision (after_claim origin l)).0
          (guard_of true s origin) (held (captured origin l)) d (alive ∙ v.idle.alive) good

  -- A save of an idle session without live tokens that is not expired, on which no other handle acts
  -- meanwhile, whose attempt is granted, whose snapshot is serialized, whose time to live fits and
  -- whose command the server accepts, succeeds: it issues the session's cookie, leaves the server as
  -- that command does, leaves nothing to save, and leaves the session ready to be saved again or
  -- deleted, under its identity.
  pub accepted_entry-Succeeds :
      Succeeds s
        (store_session server prefix to_string quiet now s l d)
        (command server prefix now s origin json px d).1
  unfolding store_session
  accepted_entry-Succeeds =
      let after = (command server prefix now s origin json px d).1 in
      accepted_lem to_string s origin l v json text (write_entry server prefix quiet s now) d after
        entry_written (store_session server prefix to_string quiet now s l d)
        (attempted_record-accepted to_string s origin l v json text
          (write_entry server prefix quiet s now) d after entry_written)
