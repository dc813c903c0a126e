-- ===== src/Memory/State.antt =====
-- src/memory_store.rs: `MemoryState`, the records and the index of their expiries.
use saysion.Prelude.{
  ℕ, zero, suc, String, Bool, true, false, ◌&&◌, ◌||◌, Option, none, some, List, [], ◌∷◌, ltb, leb,
  ◌==◌, str_eq, if◌then◌else◌,
}
use Prim.Native.String.{compare as compare_str}
use Prim.Native.Nat.{Ordering}
use saysion.Maps
use saysion.Maps.{Map}
use saysion.Session.State.{Owned}

-- `BTreeSet<(OffsetDateTime, String)>`: a list in the order of the pairs, no pair twice.
abbrev pub Entry : Type 0
Entry = ℕ × String

abbrev pub entry_eq : Entry → Entry → Bool
entry_eq (e, i) (f, j) = e == f && str_eq i j

-- The order of pairs: by time, then by text.
unfoldable pub entry_lt : Entry → Entry → Bool
entry_lt (e, i) (f, j) =
    ltb e f || (e == f && elim (compare_str i j) [ Ordering.lt ↦ true | _ ↦ false ])

unfoldable pub set_contains : Entry → List Entry → Bool
set_contains p [] = false
set_contains p (q ∷ set) = entry_eq q p || set_contains p set

unfoldable pub set_place : Entry → List Entry → List Entry
set_place p [] = p ∷ []
set_place p (q ∷ set) = let rest = set_place p set in if entry_lt p q then p ∷ q ∷ set else q ∷ rest

unfoldable pub set_insert : Entry → List Entry → List Entry
unfolding set_contains set_place
set_insert p set = if set_contains p set then set else set_place p set

unfoldable pub set_remove : Entry → List Entry → List Entry
set_remove p [] = []
set_remove p (q ∷ set) = let rest = set_remove p set in if entry_eq q p then rest else q ∷ rest

pub record MemoryState : Type 0 where
  pub records : Map Owned
  pub expiries : List Entry

unfoldable pub empty : MemoryState
empty = record { records = []; expiries = [] }

-- The two halves of an update of the index, at a session's expiry.
unfoldable pub index : String → Option ℕ → List Entry → List Entry
unfolding set_insert
index id none set = set
index id (some expiry) set = set_insert (expiry, id) set

unfoldable pub unindex : String → Option ℕ → List Entry → List Entry
unfolding set_remove
unindex id none set = set
unindex id (some expiry) set = set_remove (expiry, id) set

unfoldable pub remove : String → MemoryState → Option Owned × MemoryState
unfolding unindex
remove id st = elim (Maps.get id st.records) [
  | none ↦ (none, st)
  | some previous ↦ (
    some previous,
    record {
      records = Maps.remove id st.records;
      expiries = unindex id previous.session.expiry st.expiries;
    },
  )
]

unfoldable pub insert : String → Owned → MemoryState → Option Owned × MemoryState
unfolding remove index
insert id session st =
    let (previous, cleared) = remove id st in
    (
      previous,
      record {
        records = Maps.insert id session cleared.records;
        expiries = index id session.session.expiry cleared.expiries;
      },
    )

unfoldable pub clear : MemoryState → MemoryState
clear st = record { records = []; expiries = [] }

-- The loop of `expired_candidates`: at most `limit` entries, and none from the first live one on.
unfoldable pub scan : ℕ → ℕ → List Entry → List String
scan now zero set = []
scan now (suc limit) [] = []
scan now (suc limit) ((expiry, id) ∷ set) =
    let rest = scan now limit set in if leb now expiry then [] else id ∷ rest

unfoldable pub expired_candidates : ℕ → ℕ → MemoryState → List String
unfolding scan
expired_candidates now limit st = scan now limit st.expiries
