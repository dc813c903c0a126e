-- ===== src/Redis/Saves.antt =====
-- The keys after `store_session` of src/redis_store.rs.
use saysion.Prelude.{
  ℕ, String, ◌≡◌, refl, sym, ap, ◌∙◌, Bool, true, false, not, ◌⊎◌, Option, none, some, inl, inr,
  arith, Result, ok, is_some, str_eq, str_eq_iff, if◌then◌else◌,
}
use saysion.Lifecycle.{ready, SessionWriteGuard}
use saysion.Session.Revision.{SaveRevision}
use saysion.Session.State.{Lineage, Session, Owned}
use saysion.Session.Identity.{persistence_attempt}
use saysion.Session.Persist.{snapshot}
use saysion.Memory.Saves.{claimed}
use saysion.Backend.{Schedule, Outcome}
use saysion.Backend.Rows.{deleted, put-saved}
use saysion.Backend.Saves.{attempted_record-eq-ok}
use saysion.Redis.Commands.{Server, IsServer}
use saysion.Redis.{key, rotated_entry, own_entry, write_entry, store_session}
use saysion.Redis.Outcomes.{Expired, Live}
use saysion.Redis.Entries.{rotated_entry-eq-ok, own_entry-eq-ok}

module _ {D : Type 0} (server : Server D) (v : IsServer server) (prefix : String) (sched : Schedule)
    (now : ℕ) (s : Session) where
  known_entry-eq-ok :
      (old_id json : String) (r : SaveRevision) (g : SessionWriteGuard) (l : Lineage) (d : D)
      (cookie : Option String) (same : Bool)
      → str_eq old_id s.id ≡ same
      → let whole : Outcome D =
          if not same
          then rotated_entry server prefix sched s now old_id json r g l d
          else own_entry server prefix sched s now true json r g l d in
        whole.answer ≡ ready (ok cookie)
        → Expired server v prefix now s (some old_id) d cookie whole.rows
          ⊎ Live server v prefix now s (some old_id) json d cookie whole.rows
  known_entry-eq-ok old_id json r g l d cookie false e h =
      rotated_entry-eq-ok server v prefix sched now s old_id json r g l d cookie e h
  known_entry-eq-ok old_id json r g l d cookie true e h =
      let same = (str_eq_iff old_id s.id).0 e in
      elim (own_entry-eq-ok server v prefix sched now s true json r g l d cookie h) [
        | inl (a, b, c, effect) ↦
            inl
              (a, b, c, λ j. effect j ∙ ap (λ i. deleted (key prefix i) j (v.entry j d)) (sym same))
        | inr (px, timed, there, effect, c) ↦ inr (
          px,
          timed,
          ap (λ i. is_some (v.entry (key prefix i) d)) same ∙ there,
          λ j.
              effect j
              ∙ put-saved (key prefix old_id) (key prefix s.id) (json, px) j (v.entry j d)
                  (ap (key prefix) same),
          c,
        )
      ]

  write_entry-eq-ok :
      (origin : Option String) (json : String) (r : SaveRevision) (g : SessionWriteGuard)
      (l : Lineage) (d : D) (cookie : Option String)
      → (write_entry server prefix sched s now origin json r g l d).answer ≡ ready (ok cookie)
      → let after = (write_entry server prefix sched s now origin json r g l d).rows in
        Expired server v prefix now s origin d cookie after
        ⊎ Live server v prefix now s origin json d cookie after
  unfolding write_entry
  write_entry-eq-ok none json r g l d cookie h =
      elim (own_entry-eq-ok server v prefix sched now s false json r g l d cookie h) [
        | inl past ↦ inl past
        | inr (px, timed, there, effect, c) ↦
            inr (px, timed, there, λ j. effect j ∙ ground arith, c)
      ]
  write_entry-eq-ok (some old_id) json r g l d cookie h =
      known_entry-eq-ok old_id json r g l d cookie (str_eq old_id s.id) refl h

  -- A save that succeeds has one of two effects. If the session has expired, it deletes the record
  -- that it would replace, of its source or its own, and issues no cookie. Otherwise it puts the
  -- text of its captured snapshot under its own key, to live for the time that is left, rounded up
  -- to milliseconds, or for ever if the session does not expire, and takes the record of its source
  -- away if that is another identity; a first save found no record under its key, and any other
  -- save found the record of its source. It leaves every other key as it is.
  pub store_session_puts_or_expires :
      (to_string : Owned → Result String) (l : Lineage) (d : D) (cookie : Option String)
      → (store_session server prefix to_string sched now s l d).answer ≡ ready (ok cookie)
      → (origin : Option String) × ((persistence_attempt l s).0 ≡ ok origin)
        × ((json : String) × (to_string (snapshot (claimed l s) s) ≡ ok json)
            × (let after = (store_session server prefix to_string sched now s l d).rows in
                Expired server v prefix now s origin d cookie after
                ⊎ Live server v prefix now s origin json d cookie after))
  unfolding store_session
  store_session_puts_or_expires to_string l d cookie h =
      attempted_record-eq-ok to_string sched s (write_entry server prefix sched s now) (claimed l s)
        d
        (λ origin json after c.
          Expired server v prefix now s origin d c after
          ⊎ Live server v prefix now s origin json d c after)
        cookie (persistence_attempt l s).0
        (λ origin json r g m answer. write_entry-eq-ok origin json r g m d cookie answer) h
