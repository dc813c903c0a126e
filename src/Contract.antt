-- ===== src/Contract.antt =====
-- src/session_store.rs: the trait `SessionStore`, as an interface that the stores of a server fill, and
-- what its users rely on.
use saysion.Prelude.{
  String, ◌≡◌, ◌≢◌, sym, ap, ◌∙◌, ◌⊎◌, inl, inr, is_some, Bool, true, false, Option, none, some,
  arith, Result, ok, opt_eq, str_eq, if◌then◌else◌,
}
use saysion.Lifecycle.{Poll, ready}
use saysion.Session.State.{Lineage, Session, Owned, data_changed}
use saysion.Session.Identity.{persistence_attempt, persistence_origin}
use saysion.Session.Persist.{deletion_target}
use saysion.Backend.{Outcome}
use saysion.Backend.Rows.{saved}

-- The states of the store are the type `D`; the time and the other crates are fixed.
pub record SessionStore (D : Type 0) : Type 0 where
  pub load_session : String → D → Result (Option Owned)
  pub store_session : Session → Lineage → D → Outcome D
  pub destroy_session : Session → Lineage → D → Poll (Result (Unit {0})) × Lineage × D
  pub clear_store : D → Poll (Result (Unit {0})) × D

-- Whether there is a record of `j` after a save of `id` that replaces `origin`.
abbrev pub after_save : String → Option String → String → Bool → Bool
after_save id origin j was =
    if str_eq id j then true else if opt_eq origin (some j) then false else was

-- What the documentation of the trait promises of a store with revocation, by what `has` tells of its
-- records: a record is created for a fresh session only, a loaded session updates the record of its
-- source, a save that issues a cookie has put its record, has taken its source away if that is
-- another identity, and touched no others, what is loaded has a record, which alone it may replace,
-- and no unsaved changes, and what was destroyed or cleared has none.
pub record IsRevoking {D : Type 0} (store : SessionStore D) (has : String → D → Bool) : Type 0 where
  pub creates :
      (s : Session) (l : Lineage) (d : D) (cookie : String)
      → (persistence_attempt l s).0 ≡ ok none
      → (store.store_session s l d).answer ≡ ready (ok (some cookie))
      → has s.id d ≡ false
  pub updates :
      (s : Session) (l : Lineage) (d : D) (cookie source : String)
      → (persistence_attempt l s).0 ≡ ok (some source)
      → (store.store_session s l d).answer ≡ ready (ok (some cookie))
      → has source d ≡ true
  pub stores :
      (s : Session) (l : Lineage) (d : D) (cookie : String)
      → (store.store_session s l d).answer ≡ ready (ok (some cookie))
      → (origin : Option String) × ((persistence_attempt l s).0 ≡ ok origin)
        × ((j : String)
            → has j (store.store_session s l d).rows ≡ after_save s.id origin j (has j d))
  pub loads :
      (cookie : String) (d : D) (o : Owned)
      → store.load_session cookie d ≡ ok (some o)
      → (has o.session.id d ≡ true)
        × (persistence_origin o.lineage o.session ≡ ok (some o.session.id))
        × (data_changed o.lineage o.session ≡ false)
  pub destroys :
      (s : Session) (l : Lineage) (d : D)
      → (store.destroy_session s l d).0 ≡ ready (ok tt)
      → has (deletion_target l s) (store.destroy_session s l d).2 ≡ false
  pub clears :
      (id : String) (d : D)
      → (store.clear_store d).0 ≡ ready (ok tt)
      → has id (store.clear_store d).1 ≡ false

-- What a save that succeeded found and left, by the answer to its attempt and the records that were
-- there.
abbrev pub Found :
    {R : Type 0}
    → (String → Option R)
    → (String → Option R)
    → String
    → Result (Option String)
    → Type 0
Found row row' id attempt =
    (origin : Option String) × (attempt ≡ ok origin)
    × ((origin ≡ none) × (row id ≡ none)
        ⊎ ((source : String) × (origin ≡ some source) × (is_some (row source) ≡ true)))
    × ((j : String) → is_some (row' j) ≡ after_save id origin j (is_some (row j)))

pub is_some-saved :
    {R : Type 0} (origin : Option String) (id : String) (new : R) (j : String) (row : Option R)
    → is_some (saved origin id new j row) ≡ after_save id origin j (is_some row)
is_some-saved origin id new j row = ground arith

pub settled : {r : Result (Unit {0})} → ready r ≡ ready (ok tt) → r ≡ ok tt
settled h = cc

module _ {R : Type 0} (row row' : String → Option R) (id : String) where
  pub first_found :
      (a : Result (Option String)) → a ≡ ok none → Found row row' id a → is_some (row id) ≡ false
  first_found a e (origin, f, inl (_, absent), _) = ap is_some absent
  first_found a e (origin, f, inr (source, known, _), _) = absurd (ground (arith, e, f, known))

  pub source_found :
      (a : Result (Option String)) (source : String)
      → a ≡ ok (some source)
      → Found row row' id a
      → is_some (row source) ≡ true
  source_found a source e (origin, f, inl (none_, _), _) = absurd (ground (arith, e, f, none_))
  source_found a source e (origin, f, inr (other, known, there), _) =
      ap (λ i. is_some (row i)) (same (ap ok (sym known) ∙ (sym f ∙ e))) ∙ there
    where
      same : ok (some other) ≡ ok (some source) → source ≡ other
      same k = cc

module _ {D : Type 0} (store : SessionStore D) (has : String → D → Bool)
    (v : IsRevoking store has) where
  -- Deletion wins over a stale save: once a deletion has succeeded, a save of a session of another
  -- family, which was loaded before from the record that is gone, issues no cookie, in each store
  -- that keeps the contract.
  pub deletion_wins :
      (s : Session) (l : Lineage) (d : D) (stale : Session) (m : Lineage) (cookie : String)
      → (store.destroy_session s l d).0 ≡ ready (ok tt)
      → (persistence_attempt m stale).0 ≡ ok (some (deletion_target l s))
      → (store.store_session stale m (store.destroy_session s l d).2).answer
        ≢ ready (ok (some cookie))
  deletion_wins s l d stale m cookie gone origin saved = absurd (
      ground (
        arith,
        v.destroys s l d gone,
        v.updates stale m (store.destroy_session s l d).2 cookie (deletion_target l s) origin saved,
      ))

  -- The same after the store was cleared.
  pub clearing_wins :
      (d : D) (stale : Session) (m : Lineage) (cookie source : String)
      → (store.clear_store d).0 ≡ ready (ok tt)
      → (persistence_attempt m stale).0 ≡ ok (some source)
      → (store.store_session stale m (store.clear_store d).1).answer ≢ ready (ok (some cookie))
  clearing_wins d stale m cookie source gone origin saved = absurd (
      ground (
        arith,
        v.clears source d gone,
        v.updates stale m (store.clear_store d).1 cookie source origin saved,
      ))
