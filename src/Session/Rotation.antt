-- ===== src/Session/Rotation.antt =====
-- The identity protocol of src/session.rs: creation happens once, a rotation replaces the record
-- that it started from, and a clone that was overtaken stays without authority.
use saysion.Prelude.{
  String, ◌≡◌, ◌≢◌, true, none, some, List, [], ◌∷◌, arith, opt_eq_iff, str_eq_iff,
  session_conflict, ok, err,
}
use saysion.Session.State.{Lineage, Session, clone}
use saysion.Session.Identity.{
  may_replace, persistence_origin, mark_persisted, persistence_attempt, rotate,
}
use saysion.Session.Persist.{deletion_target}
use saysion.Session.Actions.{
  Action, inserts, removes, destroys, resets, captures, acknowledges, drops, attempts, persists,
  act, act_all,
}

act-claimed :
    (a : Action) (l : Lineage) → l.creation_claimed ≡ true → (act a l).creation_claimed ≡ true
unfolding act
act-claimed (inserts key value) l h = h
act-claimed (removes key) l h = h
act-claimed destroys l h = h
act-claimed resets l h = h
act-claimed captures l h = h
act-claimed (acknowledges r) l h = h
act-claimed (drops r) l h = h
act-claimed (attempts s) l h = unfold persistence_attempt in ground arith
act-claimed (persists s) l h = unfold mark_persisted in ground arith

act_all-claimed :
    (as_ : List Action) (l : Lineage)
    → l.creation_claimed ≡ true
    → (act_all as_ l).creation_claimed ≡ true
unfolding act_all
act_all-claimed [] l h = h
act_all-claimed (a ∷ as_) l h = act_all-claimed as_ (act a l) (act-claimed a l h)

-- Once an attempt of any handle has been given the authority to create the record, no other
-- attempt of the family is given it, whatever happens to the family, and whether or not the first
-- attempt is carried through: as long as no identity is persisted, each attempt is refused.
pub creation_at_most_once :
    (s h : Session) (l : Lineage) (as_ : List Action)
    → (persistence_attempt l s).0 ≡ ok none
    → (act_all as_ (persistence_attempt l s).1).persisted_id ≡ none
    → (persistence_attempt (act_all as_ (persistence_attempt l s).1) h).0 ≡ err session_conflict
creation_at_most_once s h l as_ e p =
    refused (act_all as_ (persistence_attempt l s).1) p
      (act_all-claimed as_ (persistence_attempt l s).1 (first e))
  where
    first :
        (persistence_attempt l s).0 ≡ ok none → (persistence_attempt l s).1.creation_claimed ≡ true
    first e = unfold persistence_attempt in ground arith

    refused :
        (m : Lineage)
        → m.persisted_id ≡ none
        → m.creation_claimed ≡ true
        → (persistence_attempt m h).0 ≡ err session_conflict
    refused m p c = unfold persistence_attempt in ground arith

-- Regenerations, each to the identity and the cookie of a new key.
pub rotate_all : Lineage → List (String × String) → Session → Session
rotate_all l [] s = s
rotate_all l ((id, cookie) ∷ keys) s = rotate_all l keys (rotate l id cookie s)

-- A handle that may replace the persisted record.
abbrev pub Holds : Lineage → Session → String → Type 0
Holds l s p = (l.persisted_id ≡ some p) × (may_replace s p ≡ true)

pub rotate-Holds :
    (l : Lineage) (id cookie : String) (s : Session) (p : String)
    → Holds l s p
    → Holds l (rotate l id cookie s) p
unfolding rotate may_replace
rotate-Holds l id cookie s p h = ground (
  arith,
  opt_eq_iff l.persisted_id (some s.id),
  opt_eq_iff s.rotation_from l.persisted_id,
  opt_eq_iff s.rotation_from (some p),
  opt_eq_iff (some p) (some p),
  str_eq_iff p s.id,
  str_eq_iff p p,
  h,
)

rotate_all-Holds :
    (l : Lineage) (keys : List (String × String)) (s : Session) (p : String)
    → Holds l s p
    → Holds l (rotate_all l keys s) p
unfolding rotate_all
rotate_all-Holds l [] s p h = h
rotate_all-Holds l ((id, cookie) ∷ keys) s p h =
    rotate_all-Holds l keys (rotate l id cookie s) p (rotate-Holds l id cookie s p h)

-- However often a session is regenerated before it is saved, its save replaces the record that is
-- persisted, its deletion deletes that record, and its completed save makes its last identity the
-- persisted one.
pub rotations_replace_origin :
    (l : Lineage) (keys : List (String × String)) (s : Session) (p : String)
    → l.persisted_id ≡ some p
    → may_replace s p ≡ true
    → let r = rotate_all l keys s in
      (persistence_origin l r ≡ ok (some p))
      × (deletion_target l r ≡ p)
      × ((mark_persisted l r).persisted_id ≡ some r.id)
rotations_replace_origin l keys s p a b =
    held (rotate_all l keys s) (rotate_all-Holds l keys s p (a, b))
  where
    held :
        (r : Session)
        → Holds l r p
        → (persistence_origin l r ≡ ok (some p))
          × (deletion_target l r ≡ p)
          × ((mark_persisted l r).persisted_id ≡ some r.id)
    held r h =
        unfold persistence_origin mark_persisted deletion_target may_replace in
        ground (arith, h, str_eq_iff p r.id, opt_eq_iff r.rotation_from (some p))

-- A handle whose identity is not the persisted one, and that did not start from it.
pub record IsSuperseded (l : Lineage) (s : Session) : Type 0 where
  pub current : String
  pub persisted : l.persisted_id ≡ some current
  pub other : s.id ≢ current
  pub elsewhere : s.rotation_from ≢ some current

rotate-IsSuperseded :
    (l : Lineage) (id cookie : String) (s : Session) (v : IsSuperseded l s)
    → id ≢ v.current
    → IsSuperseded l (rotate l id cookie s)
rotate-IsSuperseded l id cookie s v ne = record {
  current = v.current;
  persisted = v.persisted;
  other = unfold rotate in ne;
  elsewhere = kept;
}
  where
    kept : (rotate l id cookie s).rotation_from ≢ some v.current
    kept =
        unfold rotate in
        ground (
          arith,
          v.persisted,
          v.other,
          v.elsewhere,
          opt_eq_iff l.persisted_id (some s.id),
          opt_eq_iff s.rotation_from l.persisted_id,
        )

-- A clone that another one's completed rotation has overtaken has no authority: its saves are
-- refused, its late completion does not move the persisted identity, its deletion is aimed at its
-- own old identity, and regenerating it to an identity other than the persisted one leaves it
-- without authority.
pub superseded_has_no_authority :
    (l : Lineage) (s : Session) (v : IsSuperseded l s) (id cookie : String)
    → id ≢ v.current
    → ((persistence_attempt l s).0 ≡ err session_conflict)
      × (mark_persisted l s ≡ l)
      × (deletion_target l s ≡ s.id)
      × ((persistence_attempt l (rotate l id cookie s)).0 ≡ err session_conflict)
superseded_has_no_authority l s v id cookie ne =
    let (a, b, c) = powerless s v in
    (a, b, c, (powerless (rotate l id cookie s) (rotate-IsSuperseded l id cookie s v ne)).0)
  where
    powerless :
        (r : Session)
        → IsSuperseded l r
        → ((persistence_attempt l r).0 ≡ err session_conflict)
          × (mark_persisted l r ≡ l)
          × (deletion_target l r ≡ r.id)
    powerless r w =
        unfold persistence_attempt mark_persisted deletion_target may_replace in
        ground (
          arith,
          w.persisted,
          w.other,
          w.elsewhere,
          str_eq_iff w.current r.id,
          opt_eq_iff r.rotation_from (some w.current),
        )

-- When a handle's rotation is completed, each clone made before it was regenerated is overtaken,
-- if it has the old identity, no rotation of its own, and the new identity differs from the old.
pub rotation_supersedes_clones :
    (l : Lineage) (s : Session) (id cookie : String)
    → l.persisted_id ≡ some s.id
    → s.rotation_from ≡ none
    → id ≢ s.id
    → (persistence_attempt (mark_persisted l (rotate l id cookie s)) (clone s)).0
      ≡ err session_conflict
rotation_supersedes_clones l s id cookie p r ne =
    unfold persistence_attempt mark_persisted rotate may_replace clone in
    ground (arith, str_eq_iff s.id s.id, str_eq_iff id s.id)
