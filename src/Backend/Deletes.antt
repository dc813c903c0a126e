-- ===== src/Backend/Deletes.antt =====
-- What a deletion that succeeds went through, in each store with a backend.
use saysion.Prelude.{String, ◌≡◌, arith, Result, ok, Bool-cases, inl, inr}
use saysion.Lifecycle.{ready}
use saysion.Session.State.{Lineage, Session}
use saysion.Session.Persist.{begin_delete, deletion_target}
use saysion.Backend.{destroy_record}

-- A deletion that succeeds deleted the record that the handle stands for.
pub destroy_record-eq-ok :
    {D : Type 0} (delete : String → D → Result (Unit {0}) × D) (s : Session) (l : Lineage) (d : D)
    → (destroy_record delete s l d).0 ≡ ready (ok tt)
    → ((delete (deletion_target l s) d).0 ≡ ok tt)
      × ((destroy_record delete s l d).2 ≡ (delete (deletion_target l s) d).1)
unfolding destroy_record begin_delete deletion_target
destroy_record-eq-ok delete s l d h = elim (Bool-cases l.lifecycle.locked) [
  | inl busy ↦ absurd (ground (arith, busy, h))
  | inr free ↦ elim (Bool-cases l.lifecycle.uncertain) [
    | inl doubt ↦ absurd (ground (arith, free, doubt, h))
    | inr sure ↦ (ground (arith, free, sure, h), ground (arith, free, sure))
  ]
]
