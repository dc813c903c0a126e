-- ===== src/Redis/Outcomes.antt =====
-- The keys after the parts of `store_session` of src/redis_store.rs that succeed.
use saysion.Prelude.{
  ℕ, String, ◌≡◌, sym, ap, ◌∙◌, true, Option, none, some, inl, inr, arith, Result, ok, is_some,
  Bool-cases, Result-cases,
}
use saysion.Lifecycle.{Poll, ready, SessionWriteGuard}
use saysion.Session.Revision.{SaveRevision}
use saysion.Session.State.{Lineage, Session, expires_in}
use saysion.Session.Actions.{act_all}
use saysion.Backend.{Schedule, Outcome, write_record}
use saysion.Backend.Rows.{deleted, saved}
use saysion.Backend.Saves.{write_record-eq-ok}
use saysion.Redis.Commands.{Server, IsServer}
use saysion.Redis.Writes.{delete_entry-eq-ok}
use saysion.Redis.{key, ttl_millis, delete_entry, expire_entry, timed_entry}

-- The identity whose record a save replaces.
abbrev pub target : Option String → Session → String
target none s = s.id
target (some old_id) s = old_id

-- The time to live of a session, in milliseconds, if it expires, by the time that it has left.
abbrev pub TimedBy : Option ℕ → Session → Option ℕ → Type 0
TimedBy none s px = (s.expiry ≡ none) × (px ≡ none)
TimedBy (some ttl) s px = (millis : ℕ) × (ttl_millis ttl ≡ ok millis) × (px ≡ some millis)

abbrev pub Timed : ℕ → Session → Option ℕ → Type 0
Timed now s px = TimedBy (expires_in now s) s px

module _ {D : Type 0} (server : Server D) (v : IsServer server) (prefix : String) (now : ℕ)
    (s : Session) where
  -- A save of a session that has expired: the record that it would replace is deleted.
  abbrev pub Expired : Option String → D → Option String → D → Type 0
  Expired origin d cookie after =
      (is_some s.expiry ≡ true)
      × (expires_in now s ≡ none)
      × (cookie ≡ none)
      × ((j : String) → v.entry j after ≡ deleted (key prefix (target origin s)) j (v.entry j d))

  -- A save of a live one.
  abbrev pub Live : Option String → String → D → Option String → D → Type 0
  Live origin json d cookie after =
      (px : Option ℕ) × Timed now s px
      × (is_some (v.entry (key prefix (target origin s)) d) ≡ is_some origin)
      × ((j : String)
          → v.entry j after
            ≡ saved (elim origin [ none ↦ none | some old_id ↦ some (key prefix old_id) ])
                (key prefix s.id) (json, px) j (v.entry j d))
      × (cookie ≡ s.cookie_value)

module _ {D : Type 0} (server : Server D) (v : IsServer server) (prefix : String) (sched : Schedule)
    (now : ℕ) (s : Session) where
  expire_entry-eq-ok :
      (id : String) (r : SaveRevision) (g : SessionWriteGuard) (l : Lineage) (d : D)
      (cookie : Option String)
      → (expire_entry server prefix sched s id r g l d).answer ≡ ready (ok cookie)
      → (cookie ≡ none)
        × ((j : String)
            → v.entry j (expire_entry server prefix sched s id r g l d).rows
              ≡ deleted (key prefix id) j (v.entry j d))
  expire_entry-eq-ok id r g l d cookie h = elim (Result-cases (delete_entry server prefix id d).0) [
    | inl (e, bad) ↦ absurd (unfold expire_entry in ground (arith, bad, h))
    | inr (_, good) ↦ elim (Bool-cases (act_all sched.before_finish l).destroy) [
      | inl dead ↦ absurd (unfold expire_entry in ground (arith, good, dead, h))
      | inr live ↦
          let same : (expire_entry server prefix sched s id r g l d).rows
              ≡ (delete_entry server prefix id d).1 =
            unfold expire_entry in ground (arith, good, live) in
          (
            unfold expire_entry in ground (arith, good, live, h),
            λ j. ap (v.entry j) same ∙ delete_entry-eq-ok server v prefix id d good j,
          )
    ]
  ]

  pub timed_entry-eq-ok :
      (save : ℕ → D → Result (Unit {0}) × D) (ttl : ℕ) (r : SaveRevision) (g : SessionWriteGuard)
      (l : Lineage) (d : D) (cookie : Option String)
      → (timed_entry server prefix sched s save ttl r g l d).answer ≡ ready (ok cookie)
      → (millis : ℕ) × (ttl_millis ttl ≡ ok millis)
        × ((save millis d).0 ≡ ok tt)
        × ((timed_entry server prefix sched s save ttl r g l d).rows ≡ (save millis d).1)
        × (cookie ≡ s.cookie_value)
  timed_entry-eq-ok save ttl r g l d cookie h = elim (Result-cases (ttl_millis ttl)) [
    | inl (e, bad) ↦ absurd (unfold timed_entry in ground (arith, bad, h))
    | inr (millis, good) ↦
        let (a, b, c) =
          write_record-eq-ok (delete_entry server prefix) sched s (save millis) r g l d cookie
            (unfold timed_entry in ground (arith, good, h)) in
        let same : (timed_entry server prefix sched s save ttl r g l d).rows
            ≡ (write_record (delete_entry server prefix) sched s (save millis) r g l d).rows =
          unfold timed_entry in ground (arith, good) in
        (millis, good, a, same ∙ b, c)
  ]

  -- An equal outcome has the same answer.
  pub answered :
      {w w' : Outcome D} {a : Poll (Result (Option String))} → w ≡ w' → w.answer ≡ a → w'.answer ≡ a
  answered e h = ap (λ w. w.answer) (sym e) ∙ h

  pub lapsed_entry :
      (origin : Option String) (r : SaveRevision) (g : SessionWriteGuard) (l : Lineage) (d : D)
      (cookie : Option String)
      → is_some s.expiry ≡ true
      → expires_in now s ≡ none
      → (expire_entry server prefix sched s (target origin s) r g l d).answer ≡ ready (ok cookie)
      → Expired server v prefix now s origin d cookie
          (expire_entry server prefix sched s (target origin s) r g l d).rows
  lapsed_entry origin r g l d cookie ends past h =
      let (a, b) = expire_entry-eq-ok (target origin s) r g l d cookie h in (ends, past, a, b)
