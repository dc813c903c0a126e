-- ===== src/Sql/Table.antt =====
-- What src/sqlx_store.rs relies on of its database: the statements do to the table what SQL says,
-- when they succeed and no other task writes to it meanwhile.
use saysion.Prelude.{
  ℕ, String, ◌≡◌, refl, sym, ap, ◌∙◌, Bool, true, false, not, Option, none, some, [], ◌∷◌, arith,
  Result, ok, err, str_eq, str_eq_iff, is_some, leb, if◌then◌else◌, inl, inr, ◌⊎◌,
}
use saysion.Backend.Rows.{deleted, put, saved, put-saved}
use saysion.Sql.Database.{Database, text, number}
use saysion.Sql.Store.{
  Queries, insert_row, update_row, replace_in, rotate_row, save_row, affected_one, inserted,
}

-- The expiry and the text of a row.
abbrev pub Row : Type 0
Row = Option ℕ × String

-- The text of a row that is there and whose expiry is not before `now`.
abbrev pub current : ℕ → Option Row → Option String
current now none = none
current now (some (none, json)) = some json
current now (some (some e, json)) = if leb now e then some json else none

pub record IsTable {D T : Type 0} (db : Database D T) (q : Queries) : Type 0 where
  pub row : String → D → Option Row
  pub row_in : String → T → Option Row
  pub inserts :
      (id : String) (expires : Option ℕ) (json : String) (n : ℕ) (d d' : D)
      → db.execute q.insert_sql (text id ∷ number expires ∷ text json ∷ []) d ≡ (ok n, d')
      → (row id d ≡ none) × ((j : String) → row j d' ≡ put id (expires, json) j (row j d))
  pub updates :
      (id : String) (expires : Option ℕ) (json : String) (d d' : D)
      → db.execute q.update_sql (number expires ∷ text json ∷ text id ∷ []) d ≡ (ok 1, d')
      → (is_some (row id d) ≡ true) × ((j : String) → row j d' ≡ put id (expires, json) j (row j d))
  pub deletes :
      (id : String) (n : ℕ) (d d' : D)
      → db.execute q.delete_sql (text id ∷ []) d ≡ (ok n, d')
      → row id d' ≡ none
  pub clears :
      (id : String) (n : ℕ) (d d' : D) → db.execute q.clear_sql [] d ≡ (ok n, d') → row id d' ≡ none
  pub begins : (d d' : D) (t : T) → db.begin d ≡ (ok t, d') → (j : String) → row_in j t ≡ row j d
  pub deletes_in :
      (id : String) (t t' : T)
      → db.execute_in q.delete_sql (text id ∷ []) t ≡ (ok 1, t')
      → (is_some (row_in id t) ≡ true) × ((j : String) → row_in j t' ≡ deleted id j (row_in j t))
  pub inserts_in :
      (id : String) (expires : Option ℕ) (json : String) (n : ℕ) (t t' : T)
      → db.execute_in q.insert_sql (text id ∷ number expires ∷ text json ∷ []) t ≡ (ok n, t')
      → (row_in id t ≡ none) × ((j : String) → row_in j t' ≡ put id (expires, json) j (row_in j t))
  pub commits :
      (t : T) (d d' : D) → db.commit t d ≡ (ok tt, d') → (j : String) → row j d' ≡ row_in j t
  pub selects :
      (id : String) (now : ℕ) (d : D) (answer : Option String)
      → db.fetch_optional q.select_sql (text id ∷ number (some now) ∷ []) d ≡ ok answer
      → answer ≡ current now (row id d)

affected_one-eq-ok : (r : Result ℕ) → affected_one r ≡ ok tt → r ≡ ok 1
unfolding affected_one
affected_one-eq-ok (err e) h = cc
affected_one-eq-ok (ok n) h = ground arith

inserted-eq-ok : (r : Result ℕ) → inserted r ≡ ok tt → (n : ℕ) × (r ≡ ok n)
unfolding inserted
inserted-eq-ok (err e) h = cc
inserted-eq-ok (ok n) h = (n, refl)

-- A step that goes on only if the one before it succeeded.
then-eq-ok :
    {A : Type 0} (r : Result (Unit {0})) (s : A) (next : Result (Unit {0}) × A)
    → let whole : Result (Unit {0}) × A = elim r [ err e ↦ (err e, s) | ok _ ↦ next ] in
      whole.0 ≡ ok tt → (r ≡ ok tt) × (next.0 ≡ ok tt) × (whole.1 ≡ next.1)
then-eq-ok (err e) s next h = cc
then-eq-ok (ok _) s next h = (refl, h, refl)

opened-eq-ok :
    {D T : Type 0} (r : Result T) (d : D) (step : T → Result (Unit {0}) × T)
    (commit : T → Result (Unit {0}) × D)
    → let whole : Result (Unit {0}) × D = elim r [
      | err e ↦ (err e, d)
      | ok t ↦ elim (step t).0 [ err e ↦ (err e, d) | ok _ ↦ commit (step t).1 ]
    ] in
      whole.0 ≡ ok tt
      → (t : T) × (r ≡ ok t)
        × ((step t).0 ≡ ok tt)
        × ((commit (step t).1).0 ≡ ok tt)
        × (whole.1 ≡ (commit (step t).1).1)
opened-eq-ok (err e) d step commit h = cc
opened-eq-ok (ok t) d step commit h =
    let (a, b, c) = then-eq-ok (step t).0 d (commit (step t).1) h in (t, refl, a, b, c)

module _ {D T : Type 0} (db : Database D T) (q : Queries) (v : IsTable db q) where
  insert_row-eq-ok :
      (id : String) (expires : Option ℕ) (json : String) (d : D)
      → (insert_row db q id expires json d).0 ≡ ok tt
      → (v.row id d ≡ none)
        × ((j : String)
            → v.row j (insert_row db q id expires json d).1 ≡ put id (expires, json) j (v.row j d))
  unfolding insert_row
  insert_row-eq-ok id expires json d h =
      let x = db.execute q.insert_sql (text id ∷ number expires ∷ text json ∷ []) d in
      let (n, e) = inserted-eq-ok x.0 h in v.inserts id expires json n d x.1 (λ i. (e i, x.1))

  update_row-eq-ok :
      (id : String) (expires : Option ℕ) (json : String) (d : D)
      → (update_row db q id expires json d).0 ≡ ok tt
      → (is_some (v.row id d) ≡ true)
        × ((j : String)
            → v.row j (update_row db q id expires json d).1 ≡ put id (expires, json) j (v.row j d))
  unfolding update_row
  update_row-eq-ok id expires json d h =
      let x = db.execute q.update_sql (number expires ∷ text json ∷ text id ∷ []) d in
      v.updates id expires json d x.1 (λ i. (affected_one-eq-ok x.0 h i, x.1))

  replace_in-eq-ok :
      (origin id : String) (expires : Option ℕ) (json : String) (t : T)
      → (replace_in db q origin id expires json t).0 ≡ ok tt
      → (is_some (v.row_in origin t) ≡ true)
        × ((j : String)
            → v.row_in j (replace_in db q origin id expires json t).1
              ≡ put id (expires, json) j (deleted origin j (v.row_in j t)))
  unfolding replace_in
  replace_in-eq-ok origin id expires json t h =
      let x = db.execute_in q.delete_sql (text origin ∷ []) t in
      let p = db.execute_in q.insert_sql (text id ∷ number expires ∷ text json ∷ []) x.1 in
      let (a, b, c) = then-eq-ok (affected_one x.0) x.1 (inserted p.0, p.1) h in
      let (source, gone) = v.deletes_in origin t x.1 (λ i. (affected_one-eq-ok x.0 a i, x.1)) in
      let (n, e) = inserted-eq-ok p.0 b in
      let (fresh, added) = v.inserts_in id expires json n x.1 p.1 (λ i. (e i, p.1)) in
      (source, λ j. ap (v.row_in j) c ∙ added j ∙ ap (put id (expires, json) j) (gone j))

  rotate_row-eq-ok :
      (origin id : String) (expires : Option ℕ) (json : String) (d : D)
      → (rotate_row db q origin id expires json d).0 ≡ ok tt
      → (is_some (v.row origin d) ≡ true)
        × ((j : String)
            → v.row j (rotate_row db q origin id expires json d).1
              ≡ put id (expires, json) j (deleted origin j (v.row j d)))
  unfolding rotate_row
  rotate_row-eq-ok origin id expires json d h =
      let x = db.begin d in
      let (t, opened, replaced, committed, whole) =
        opened-eq-ok x.0 x.1 (replace_in db q origin id expires json) (λ t. db.commit t x.1) h in
      let (source, effect) = replace_in-eq-ok origin id expires json t replaced in
      let before = v.begins d x.1 t (λ i. (opened i, x.1)) in
      let t' = (replace_in db q origin id expires json t).1 in
      let after =
        v.commits t' x.1 (db.commit t' x.1).1 (λ i. (committed i, (db.commit t' x.1).1)) in
      (
        ap is_some (sym (before origin)) ∙ source,
        λ j.
            ap (v.row j) whole
            ∙ after j
            ∙ effect j
            ∙ ap (λ row. put id (expires, json) j (deleted origin j row)) (before j),
      )

  known_row-eq-ok :
      (origin id : String) (expires : Option ℕ) (json : String) (d : D) (same : Bool)
      → str_eq origin id ≡ same
      → let whole : Result (Unit {0}) × D =
          if not same
          then rotate_row db q origin id expires json d
          else update_row db q id expires json d in
        whole.0 ≡ ok tt
        → ((j : String) → v.row j whole.1 ≡ saved (some origin) id (expires, json) j (v.row j d))
          × (is_some (v.row origin d) ≡ true)
  known_row-eq-ok origin id expires json d false e h =
      let (source, effect) = rotate_row-eq-ok origin id expires json d h in (effect, source)
  known_row-eq-ok origin id expires json d true e h =
      let (source, effect) = update_row-eq-ok id expires json d h in
      let same = (str_eq_iff origin id).0 e in
      (
        λ j. effect j ∙ put-saved origin id (expires, json) j (v.row j d) same,
        ap (λ i. is_some (v.row i d)) same ∙ source,
      )

  -- The rows after `save_row` succeeded, and what it found before.
  pub save_row-eq-ok :
      (origin : Option String) (id : String) (expires : Option ℕ) (json : String) (d : D)
      → (save_row db q origin id expires json d).0 ≡ ok tt
      → ((j : String)
          → v.row j (save_row db q origin id expires json d).1
            ≡ saved origin id (expires, json) j (v.row j d))
        × ((origin ≡ none) × (v.row id d ≡ none)
            ⊎ ((source : String) × (origin ≡ some source) × (is_some (v.row source d) ≡ true)))
  unfolding save_row
  save_row-eq-ok none id expires json d h =
      let (fresh, effect) = insert_row-eq-ok id expires json d h in (effect, inl (refl, fresh))
  save_row-eq-ok (some origin) id expires json d h =
      let (effect, source) = known_row-eq-ok origin id expires json d (str_eq origin id) refl h in
      (effect, inr (origin, refl, source))
