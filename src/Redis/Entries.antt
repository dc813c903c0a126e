-- ===== src/Redis/Entries.antt =====
-- The keys after a save to src/redis_store.rs under a new identity, and under its own.
use saysion.Prelude.{
  ℕ, String, ◌≡◌, refl, ap, ◌∙◌, Bool, false, ◌⊎◌, Option, none, some, inl, inr, arith, ok, is_some,
  str_eq, Option-cases,
}
use saysion.Lifecycle.{ready, SessionWriteGuard}
use saysion.Session.Revision.{SaveRevision}
use saysion.Session.State.{Lineage, Session, expires_in}
use saysion.Backend.{Schedule, write_record}
use saysion.Backend.Rows.{put}
use saysion.Backend.Saves.{write_record-eq-ok}
use saysion.Redis.Commands.{Server, IsServer}
use saysion.Redis.Ttl.{ttl_millis-positive}
use saysion.Redis.Writes.{set_entry-eq-ok, rotate_entry-eq-ok}
use saysion.Redis.{
  key, delete_entry, rotate_entry, set_entry, expire_entry, timed_entry, rotated_entry, own_entry,
}
use saysion.Redis.Outcomes.{Timed, Expired, Live, timed_entry-eq-ok, answered, lapsed_entry}

module _ {D : Type 0} (server : Server D) (v : IsServer server) (prefix : String) (sched : Schedule)
    (now : ℕ) (s : Session) where
  -- The two ways to write the record of a new identity, and then of its own.
  rotated_forever :
      (old_id json : String) (r : SaveRevision) (g : SessionWriteGuard) (l : Lineage) (d : D)
      (cookie : Option String)
      → str_eq old_id s.id ≡ false
      → s.expiry ≡ none
      → let w =
          write_record
            (delete_entry server prefix)
            sched
            s
            (rotate_entry server prefix old_id s.id json 0)
            r
            g
            l
            d in
        w.answer ≡ ready (ok cookie) → Live server v prefix now s (some old_id) json d cookie w.rows
  rotated_forever old_id json r g l d cookie other forever h =
      let (a, b, c) =
        write_record-eq-ok (delete_entry server prefix) sched s
          (rotate_entry server prefix old_id s.id json 0) r g l d cookie h in
      let (there, effect) = rotate_entry-eq-ok server v prefix old_id s.id json 0 d other a in
      (
        none,
        unfold expires_in in rw forever (refl, refl),
        there,
        λ j. ap (v.entry j) b ∙ effect j,
        c,
      )

  rotated_timed :
      (old_id json : String) (ttl : ℕ) (r : SaveRevision) (g : SessionWriteGuard) (l : Lineage)
      (d : D) (cookie : Option String)
      → str_eq old_id s.id ≡ false
      → expires_in now s ≡ some ttl
      → let w =
          timed_entry server prefix sched s
            (rotate_entry server prefix old_id s.id json)
            ttl
            r
            g
            l
            d in
        w.answer ≡ ready (ok cookie) → Live server v prefix now s (some old_id) json d cookie w.rows
  rotated_timed old_id json ttl r g l d cookie other left h =
      let (millis, fits, a, b, c) =
        timed_entry-eq-ok server v prefix sched now s (rotate_entry server prefix old_id s.id json)
          ttl r g l d cookie h in
      let (there, effect) = rotate_entry-eq-ok server v prefix old_id s.id json millis d other a in
      let least = ttl_millis-positive ttl millis fits in
      (
        some millis,
        rw (left, Timed) (millis, fits, refl),
        there,
        λ j. ap (v.entry j) b ∙ (effect j ∙ ground (arith, least)),
        c,
      )

  pub rotated_entry-eq-ok :
      (old_id json : String) (r : SaveRevision) (g : SessionWriteGuard) (l : Lineage) (d : D)
      (cookie : Option String)
      → str_eq old_id s.id ≡ false
      → (rotated_entry server prefix sched s now old_id json r g l d).answer ≡ ready (ok cookie)
      → let after = (rotated_entry server prefix sched s now old_id json r g l d).rows in
        Expired server v prefix now s (some old_id) d cookie after
        ⊎ Live server v prefix now s (some old_id) json d cookie after
  rotated_entry-eq-ok old_id json r g l d cookie other h = elim (Option-cases s.expiry) [
    | inl forever ↦
        let whole : rotated_entry server prefix sched s now old_id json r g l d
            ≡ write_record (delete_entry server prefix) sched s
                (rotate_entry server prefix old_id s.id json 0) r g l d =
          unfold rotated_entry in rw (rotated_entry, forever) refl in
        rw whole (
          inr (
            rotated_forever old_id json r g l d cookie other forever
              (answered server v prefix sched now s whole h)))
    | inr (expiry, ends) ↦ elim (Option-cases (expires_in now s)) [
      | inl past ↦
          let whole : rotated_entry server prefix sched s now old_id json r g l d
              ≡ expire_entry server prefix sched s old_id r g l d =
            unfold rotated_entry in rw (rotated_entry, ends, past) refl in
          rw whole (
            inl (
              lapsed_entry server v prefix sched now s (some old_id) r g l d cookie
                (ap is_some ends) past (answered server v prefix sched now s whole h)))
      | inr (ttl, left) ↦
          let whole : rotated_entry server prefix sched s now old_id json r g l d
              ≡ timed_entry server prefix sched s (rotate_entry server prefix old_id s.id json) ttl
                  r g l d =
            unfold rotated_entry in rw (rotated_entry, ends, left) refl in
          rw whole (
            inr (
              rotated_timed old_id json ttl r g l d cookie other left
                (answered server v prefix sched now s whole h)))
    ]
  ]

  abbrev OwnLive : Bool → String → D → Option String → D → Type 0
  OwnLive replaces json d cookie after =
      (px : Option ℕ) × Timed now s px
      × (is_some (v.entry (key prefix s.id) d) ≡ replaces)
      × ((j : String) → v.entry j after ≡ put (key prefix s.id) (json, px) j (v.entry j d))
      × (cookie ≡ s.cookie_value)

  own_forever :
      (replaces : Bool) (json : String) (r : SaveRevision) (g : SessionWriteGuard) (l : Lineage)
      (d : D) (cookie : Option String)
      → expires_in now s ≡ none
      → s.expiry ≡ none
      → let w =
          write_record
            (delete_entry server prefix)
            sched
            s
            (set_entry server prefix replaces s.id json none)
            r
            g
            l
            d in
        w.answer ≡ ready (ok cookie) → OwnLive replaces json d cookie w.rows
  own_forever replaces json r g l d cookie past forever h =
      let (a, b, c) =
        write_record-eq-ok (delete_entry server prefix) sched s
          (set_entry server prefix replaces s.id json none) r g l d cookie h in
      let (there, effect) = set_entry-eq-ok server v prefix replaces s.id json none d a in
      (none, rw (past, Timed) (forever, refl), there, λ j. ap (v.entry j) b ∙ effect j, c)

  own_timed :
      (replaces : Bool) (json : String) (ttl : ℕ) (r : SaveRevision) (g : SessionWriteGuard)
      (l : Lineage) (d : D) (cookie : Option String)
      → expires_in now s ≡ some ttl
      → let w =
          timed_entry server prefix sched s
            (λ millis. set_entry server prefix replaces s.id json (some millis))
            ttl
            r
            g
            l
            d in
        w.answer ≡ ready (ok cookie) → OwnLive replaces json d cookie w.rows
  own_timed replaces json ttl r g l d cookie left h =
      let (millis, fits, a, b, c) =
        timed_entry-eq-ok server v prefix sched now s
          (λ millis. set_entry server prefix replaces s.id json (some millis)) ttl r g l d cookie
          h in
      let (there, effect) = set_entry-eq-ok server v prefix replaces s.id json (some millis) d a in
      (
        some millis,
        rw (left, Timed) (millis, fits, refl),
        there,
        λ j. ap (v.entry j) b ∙ effect j,
        c,
      )

  pub own_entry-eq-ok :
      (replaces : Bool) (json : String) (r : SaveRevision) (g : SessionWriteGuard) (l : Lineage)
      (d : D) (cookie : Option String)
      → (own_entry server prefix sched s now replaces json r g l d).answer ≡ ready (ok cookie)
      → let after = (own_entry server prefix sched s now replaces json r g l d).rows in
        Expired server v prefix now s none d cookie after
        ⊎ ((px : Option ℕ) × Timed now s px
            × (is_some (v.entry (key prefix s.id) d) ≡ replaces)
            × ((j : String) → v.entry j after ≡ put (key prefix s.id) (json, px) j (v.entry j d))
            × (cookie ≡ s.cookie_value))
  own_entry-eq-ok replaces json r g l d cookie h = elim (Option-cases (expires_in now s)) [
    | inl past ↦ elim (Option-cases s.expiry) [
      | inl forever ↦
          let whole : own_entry server prefix sched s now replaces json r g l d
              ≡ write_record (delete_entry server prefix) sched s
                  (set_entry server prefix replaces s.id json none) r g l d =
            unfold own_entry in rw (own_entry, past, forever) refl in
          rw whole (
            inr (
              own_forever replaces json r g l d cookie past forever
                (answered server v prefix sched now s whole h)))
      | inr (expiry, ends) ↦
          let whole : own_entry server prefix sched s now replaces json r g l d
              ≡ expire_entry server prefix sched s s.id r g l d =
            unfold own_entry in rw (own_entry, past, ends) refl in
          rw whole (
            inl (
              lapsed_entry server v prefix sched now s none r g l d cookie (ap is_some ends) past
                (answered server v prefix sched now s whole h)))
    ]
    | inr (ttl, left) ↦
        let whole : own_entry server prefix sched s now replaces json r g l d
            ≡ timed_entry server prefix sched s
                (λ millis. set_entry server prefix replaces s.id json (some millis)) ttl r g l d =
          unfold own_entry in rw (own_entry, left) refl in
        rw whole (
          inr (
            own_timed replaces json ttl r g l d cookie left
              (answered server v prefix sched now s whole h)))
  ]
