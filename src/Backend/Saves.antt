-- ===== src/Backend/Saves.antt =====
-- What a save that succeeds went through, in each store with a backend.
use saysion.Prelude.{
  String, ◌≡◌, ◌≢◌, refl, sym, subst, Bool, true, if◌then◌else◌, false, Option, arith, Error,
  session_conflict, Result, ok, err, Result-cases, Bool-cases, inl, inr,
}
use saysion.Lifecycle.{Poll, pending, ready, SessionWriteGuard}
use saysion.Session.Revision.{SaveRevision}
use saysion.Session.State.{Lineage, Session, Owned, is_destroyed}
use saysion.Session.Persist.{begin_backend_write, snapshot, persistence_snapshot}
use saysion.Session.Actions.{act_all}
use saysion.Memory.Store.{abort_write}
use saysion.Backend.{
  Schedule, Outcome, undo_record, finish_record, write_record, locked_record, serialized_record,
  attempted_record,
}

module _ {D : Type 0} (delete : String → D → Result (Unit {0}) × D) (sched : Schedule)
    (s : Session) where
  undo_record-answer :
      (e : Error) (r : SaveRevision) (g : SessionWriteGuard) (l : Lineage) (d : D)
      (cookie : Option String)
      → (undo_record delete sched s e r g l d).answer ≢ ready (ok cookie)
  undo_record-answer e r g l d cookie h = elim (Result-cases (delete s.id d).0) [
    | inl (x, bad) ↦ absurd (unfold undo_record in ground (arith, bad, h))
    | inr (n, good) ↦ absurd (unfold undo_record in ground (arith, good, h))
  ]

  pub finish_record-eq-ok :
      (r : SaveRevision) (g : SessionWriteGuard) (l : Lineage) (d : D) (cookie : Option String)
      → (finish_record delete sched s r g l d).answer ≡ ready (ok cookie)
      → (l.destroy ≡ false)
        × ((finish_record delete sched s r g l d).rows ≡ d)
        × (cookie ≡ s.cookie_value)
  finish_record-eq-ok r g l d cookie h = elim (Bool-cases l.destroy) [
    | inl dead ↦ absurd (
        undo_record-answer session_conflict r (record g { settled = true }) l d cookie
          (unfold finish_record in ground (arith, dead, h)))
    | inr live ↦ (
      live,
      unfold finish_record in ground (arith, live),
      unfold finish_record in ground (arith, live, h),
    )
  ]

  pub write_record-eq-ok :
      (save : D → Result (Unit {0}) × D) (r : SaveRevision) (g : SessionWriteGuard) (l : Lineage)
      (d : D) (cookie : Option String)
      → (write_record delete sched s save r g l d).answer ≡ ready (ok cookie)
      → ((save d).0 ≡ ok tt)
        × ((write_record delete sched s save r g l d).rows ≡ (save d).1)
        × (cookie ≡ s.cookie_value)
  unfolding write_record
  write_record-eq-ok save r g l d cookie h = elim (Result-cases (save d).0) [
    | inl (e, bad) ↦ absurd (ground (arith, bad, h))
    | inr (_, good) ↦
        let fin =
          finish_record-eq-ok r g (act_all sched.before_finish l) (save d).1 cookie
            (ground (arith, good, h)) in
        (good, rw (good, write_record) fin.1, fin.2)
  ]

module _ {κ} {D : Type 0} (sched : Schedule) (s : Session) (P : D → Option String → Type κ) (d : D)
    (cookie : Option String) where
  -- What a write that succeeds leaves holds after the save, and the snapshot was serialized.
  pub serialized_record-eq-ok :
      (origin : Option String)
      (write : String → SaveRevision → SessionWriteGuard → Lineage → D → Outcome D)
      (r : SaveRevision) (written : Result String) (l : Lineage)
      (wrote : (json : String) (g : SessionWriteGuard) (m : Lineage)
        → written ≡ ok json
        → (write json r g m d).answer ≡ ready (ok cookie)
        → P (write json r g m d).rows cookie)
      → (serialized_record sched s origin write r written l d).answer ≡ ready (ok cookie)
      → P (serialized_record sched s origin write r written l d).rows cookie
  unfolding serialized_record locked_record
  serialized_record-eq-ok origin write r (err e) l wrote h = cc
  serialized_record-eq-ok origin write r (ok json) l wrote h =
      go (begin_backend_write (act_all sched.before_lock l) s origin true).0 h
    where
      held : Lineage
      held = (begin_backend_write (act_all sched.before_lock l) s origin true).1

      go :
          (lock : Poll (Result SessionWriteGuard))
          → (locked_record (write json) r lock held d).answer ≡ ready (ok cookie)
          → P (locked_record (write json) r lock held d).rows cookie
      go pending h = cc
      go (ready (err e)) h = cc
      go (ready (ok g)) h = wrote json g held refl h

-- What holds of the records that the write leaves, and that a deletion of its own record keeps.
pub write_record-rows {κ} :
    {D : Type 0} (delete : String → D → Result (Unit {0}) × D) (sched : Schedule) (s : Session)
    (P : D → Type κ) (save : D → Result (Unit {0}) × D) (r : SaveRevision) (g : SessionWriteGuard)
    (l : Lineage) (d : D)
    → P (save d).1
    → ((e : D) → P e → P (delete s.id e).1)
    → P (write_record delete sched s save r g l d).rows
unfolding write_record
write_record-rows {D = D} delete sched s P save r g l d p keeps = by_save (save d) p
  where
    held : Lineage
    held = act_all sched.before_finish l

    undo :
        (e : Error) (h : SessionWriteGuard) (d' : D)
        → P d'
        → P (undo_record delete sched s e r h held d').rows
    undo e h d' q = elim (Result-cases (delete s.id d').0) [
      | inl (x, bad) ↦ subst P (sym (unfold undo_record in ground (arith, bad))) (keeps d' q)
      | inr (n, good) ↦ subst P (sym (unfold undo_record in ground (arith, good))) (keeps d' q)
    ]

    fin : (d' : D) → P d' → P (finish_record delete sched s r g held d').rows
    fin d' q = elim (Bool-cases held.destroy) [
      | inl dead ↦
          subst P (sym (unfold finish_record in ground (arith, dead)))
            (undo session_conflict (record g { settled = true }) d' q)
      | inr live ↦ subst P (sym (unfold finish_record in ground (arith, live))) q
    ]

    by_save :
        (x : Result (Unit {0}) × D)
        → P x.1
        → P
            (elim x.0 as (λ _. Outcome D) [
              | err e ↦ record {
                answer = ready (err e);
                lineage = abort_write r g held;
                rows = x.1;
              }
              | ok _ ↦ finish_record delete sched s r g held x.1
            ]).rows
    by_save (err e, d') q = q
    by_save (ok _, d') q = fin d' q

pub serialized_record-rows {κ} :
    {D : Type 0} (sched : Schedule) (s : Session) (P : D → Type κ) (d : D) (origin : Option String)
    (write : String → SaveRevision → SessionWriteGuard → Lineage → D → Outcome D) (r : SaveRevision)
    (written : Result String) (l : Lineage)
    → P d
    → ((json : String) (g : SessionWriteGuard) (m : Lineage) → P (write json r g m d).rows)
    → P (serialized_record sched s origin write r written l d).rows
unfolding serialized_record locked_record
serialized_record-rows sched s P d origin write r (err e) l p wrote = p
serialized_record-rows sched s P d origin write r (ok json) l p wrote =
    go (begin_backend_write (act_all sched.before_lock l) s origin true).0
  where
    held : Lineage
    held = (begin_backend_write (act_all sched.before_lock l) s origin true).1

    go :
        (lock : Poll (Result SessionWriteGuard)) → P (locked_record (write json) r lock held d).rows
    go pending = p
    go (ready (err e)) = p
    go (ready (ok g)) = wrote json g held

module _ {D : Type 0} (to_string : Owned → Result String) (sched : Schedule) (s : Session)
    (write : Option String → String → SaveRevision → SessionWriteGuard → Lineage → D → Outcome D)
    (l : Lineage) (d : D) where
  -- What a write that succeeds leaves holds after the save, with the text of the snapshot.
  pub attempted_record-eq-ok {κ} :
      (W : Option String → String → D → Option String → Type κ) (cookie : Option String)
      (attempt : Result (Option String))
      (wrote : (origin : Option String) (json : String) (r : SaveRevision) (g : SessionWriteGuard)
          (m : Lineage)
        → (write origin json r g m d).answer ≡ ready (ok cookie)
        → W origin json (write origin json r g m d).rows cookie)
      → (attempted_record to_string sched s write attempt l d).answer ≡ ready (ok cookie)
      → (origin : Option String) × (attempt ≡ ok origin)
        × ((json : String) × (to_string (snapshot l s) ≡ ok json)
            × W origin json (attempted_record to_string sched s write attempt l d).rows cookie)
  unfolding attempted_record
  attempted_record-eq-ok W cookie (err e) wrote h = cc
  attempted_record-eq-ok W cookie (ok origin) wrote h = (origin, refl, by_test (is_destroyed l) h)
    where
      r : SaveRevision
      r = (persistence_snapshot l s).1

      saving : Outcome D
      saving =
          serialized_record sched s origin (write origin) r (to_string (snapshot l s))
            (persistence_snapshot l s).2 d

      Kept : D → Option String → Type κ
      Kept d' c = (json : String) × (to_string (snapshot l s) ≡ ok json) × W origin json d' c

      by_test :
          (dead : Bool)
          → let whole =
              if dead
              then record { answer = ready (err session_conflict); lineage = l; rows = d }
              else saving in
            whole.answer ≡ ready (ok cookie) → Kept whole.rows cookie
      by_test true h = cc
      by_test false h =
          serialized_record-eq-ok sched s Kept d cookie origin (write origin) r
            (to_string (snapshot l s)) (persistence_snapshot l s).2
            (λ json g m written answer. (json, written, wrote origin json r g m answer)) h

  pub attempted_record-rows {κ} :
      (P : D → Type κ) (attempt : Result (Option String))
      → P d
      → ((origin : Option String)
          → attempt ≡ ok origin
          → (json : String) (r : SaveRevision) (g : SessionWriteGuard) (m : Lineage)
          → P (write origin json r g m d).rows)
      → P (attempted_record to_string sched s write attempt l d).rows
  unfolding attempted_record
  attempted_record-rows P (err e) p wrote = p
  attempted_record-rows P (ok origin) p wrote = by_test (is_destroyed l)
    where
      saving : Outcome D
      saving =
          serialized_record sched s origin (write origin) (persistence_snapshot l s).1
            (to_string (snapshot l s)) (persistence_snapshot l s).2 d

      by_test :
          (dead : Bool)
          → P
              (if dead
                then record { answer = ready (err session_conflict); lineage = l; rows = d }
                else saving).rows
      by_test true = p
      by_test false =
          serialized_record-rows sched s P d origin (write origin) (persistence_snapshot l s).1
            (to_string (snapshot l s)) (persistence_snapshot l s).2 p
            (λ json g m. wrote origin refl json (persistence_snapshot l s).1 g m)
