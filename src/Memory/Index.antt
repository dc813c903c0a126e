-- ===== src/Memory/Index.antt =====
-- The invariant of `MemoryState`: the index holds exactly the expiries of the records, in order.
use saysion.Prelude.{
  ℕ, ◌≤◌, String, ◌≡◌, refl, Bool, false, not, ◌&&◌, ◌||◌, Option, none, some, List, [], ◌∷◌, arith,
  ◌==◌, str_eq, str_eq_iff, if◌then◌else◌, Option-cases, inl, inr,
}
use saysion.Maps
use saysion.Maps.{Map, get-insert, get-remove, insert-IsDistinct, remove-IsDistinct}
use saysion.Session.State.{Owned}
use saysion.Memory.State.{
  Entry, entry_eq, entry_lt, set_contains, set_place, set_insert, set_remove, MemoryState, empty,
  index, unindex, remove, insert, clear,
}

set_contains-place :
    (p q : Entry) (set : List Entry)
    → set_contains q (set_place p set) ≡ (entry_eq p q || set_contains q set)
unfolding set_contains set_place
set_contains-place p q [] = refl
set_contains-place p q (r ∷ set) = ground (arith, set_contains-place p q set)

pub set_contains-insert :
    (p q : Entry) (set : List Entry)
    → set_contains q (set_insert p set) ≡ (entry_eq p q || set_contains q set)
unfolding set_insert
set_contains-insert (e, i) (f, j) set =
    ground (arith, set_contains-place (e, i) (f, j) set, str_eq_iff i j)

pub set_contains-remove :
    (p q : Entry) (set : List Entry)
    → set_contains q (set_remove p set) ≡ (not (entry_eq p q) && set_contains q set)
unfolding set_contains set_remove
set_contains-remove (e, i) (f, j) [] = ground arith
set_contains-remove (e, i) (f, j) ((g, k) ∷ set) =
    ground
      (arith, set_contains-remove (e, i) (f, j) set, str_eq_iff i j, str_eq_iff k i, str_eq_iff k j)

-- What the index says of one record.
abbrev is_at : ℕ → Option ℕ → Bool
is_at e none = false
is_at e (some f) = f == e

abbrev pub expires_at : ℕ → Option Owned → Bool
expires_at e none = false
expires_at e (some o) = is_at e o.session.expiry

abbrev pub IsAfter : ℕ → List Entry → Type 0
IsAfter e [] = Unit
IsAfter e ((f, j) ∷ set) = (e ≤ f) × IsAfter e set

-- Oldest first, no entry twice.
abbrev pub IsOrdered : List Entry → Type 0
IsOrdered [] = Unit
IsOrdered ((e, i) ∷ set) = IsAfter e set × (set_contains (e, i) set ≡ false) × IsOrdered set

-- What `assert_index_consistent` tests, and that both collections are well formed.
pub record IsConsistent (st : MemoryState) : Type 0 where
  pub distinct : Maps.IsDistinct st.records
  pub ordered : IsOrdered st.expiries
  pub indexed :
      (e : ℕ) (i : String) → set_contains (e, i) st.expiries ≡ expires_at e (Maps.get i st.records)

IsAfter-trans : (e f : ℕ) (set : List Entry) → e ≤ f → IsAfter f set → IsAfter e set
IsAfter-trans e f [] h a = tt
IsAfter-trans e f ((g, j) ∷ set) h a = (omega (arith, a.0), IsAfter-trans e f set h a.1)

IsAfter-place :
    (e f : ℕ) (i : String) (set : List Entry)
    → e ≤ f
    → IsAfter e set
    → IsAfter e (set_place (f, i) set)
unfolding set_place
IsAfter-place e f i [] h a = (h, tt)
IsAfter-place e f i ((g, j) ∷ set) h a = ground (arith, IsAfter-place e f i set h a.1)

place-IsOrdered :
    (e : ℕ) (i : String) (set : List Entry)
    → set_contains (e, i) set ≡ false
    → IsOrdered set
    → IsOrdered (set_place (e, i) set)
unfolding set_place set_contains entry_lt
place-IsOrdered e i [] h o = (tt, refl, tt)
place-IsOrdered e i ((f, j) ∷ set) h (a, n, o) = ground (
  arith,
  place-IsOrdered e i set,
  set_contains-place (e, i) (f, j) set,
  IsAfter-place f e i set,
  IsAfter-trans e f set,
  str_eq_iff i j,
  str_eq_iff j i,
)

IsAfter-remove :
    (e : ℕ) (p : Entry) (set : List Entry) → IsAfter e set → IsAfter e (set_remove p set)
unfolding set_remove
IsAfter-remove e p [] a = tt
IsAfter-remove e p ((f, j) ∷ set) a = ground (arith, IsAfter-remove e p set a.1)

remove-IsOrdered : (p : Entry) (set : List Entry) → IsOrdered set → IsOrdered (set_remove p set)
unfolding set_remove
remove-IsOrdered p [] o = tt
remove-IsOrdered (e, i) ((f, j) ∷ set) (a, n, o) = ground (
  arith,
  remove-IsOrdered (e, i) set o,
  IsAfter-remove f (e, i) set a,
  set_contains-remove (e, i) (f, j) set,
)

index-IsOrdered :
    (i : String) (o : Option ℕ) (set : List Entry) → IsOrdered set → IsOrdered (index i o set)
unfolding index set_insert
index-IsOrdered i none set h = h
index-IsOrdered i (some e) set h = ground (arith, place-IsOrdered e i set)

unindex-IsOrdered :
    (i : String) (o : Option ℕ) (set : List Entry) → IsOrdered set → IsOrdered (unindex i o set)
unfolding unindex
unindex-IsOrdered i none set h = h
unindex-IsOrdered i (some e) set h = remove-IsOrdered (e, i) set h

set_contains-index :
    (id : String) (x : Option ℕ) (e : ℕ) (i : String) (set : List Entry)
    → set_contains (e, i) (index id x set) ≡ (is_at e x && str_eq id i || set_contains (e, i) set)
unfolding index
set_contains-index id none e i set = refl
set_contains-index id (some f) e i set = set_contains-insert (f, id) (e, i) set

set_contains-unindex :
    (id : String) (x : Option ℕ) (e : ℕ) (i : String) (set : List Entry)
    → set_contains (e, i) (unindex id x set)
      ≡ (not (is_at e x && str_eq id i) && set_contains (e, i) set)
unfolding unindex
set_contains-unindex id none e i set = refl
set_contains-unindex id (some f) e i set = set_contains-remove (f, id) (e, i) set

-- The record of every other key is left alone.
pub get-remove_state :
    (id j : String) (st : MemoryState)
    → Maps.get j (remove id st).1.records ≡ (if str_eq id j then none else Maps.get j st.records)
unfolding remove
get-remove_state id j st = elim (Option-cases (Maps.get id st.records)) [
  | inl miss ↦ rw (miss, remove) (ground (arith, str_eq_iff id j))
  | inr (o, hit) ↦ rw (hit, remove) (get-remove id j st.records)
]

pub get-insert_state :
    (id j : String) (o : Owned) (st : MemoryState)
    → Maps.get j (insert id o st).1.records
      ≡ (if str_eq id j then some o else Maps.get j st.records)
unfolding insert
get-insert_state id j o st =
    ground (arith, get-insert id j o (remove id st).1.records, get-remove_state id j st)

pub empty-IsConsistent : IsConsistent empty
unfolding empty set_contains Maps.get
empty-IsConsistent = record { distinct = tt; ordered = tt; indexed = λ e i. refl }

-- Removing a record removes its entry of the index, and no other.
pub remove-IsConsistent :
    (id : String) (st : MemoryState) → IsConsistent st → IsConsistent (remove id st).1
unfolding remove
remove-IsConsistent id st v = elim (Option-cases (Maps.get id st.records)) [
  | inl miss ↦ rw (miss, remove) v
  | inr (o, hit) ↦
      rw (hit, remove)
        (record {
          distinct = remove-IsDistinct id st.records v.distinct;
          ordered = unindex-IsOrdered id o.session.expiry st.expiries v.ordered;
          indexed = λ e i. unindexed o hit e i;
        })
]
  where
    unindexed :
        (o : Owned)
        → Maps.get id st.records ≡ some o
        → (e : ℕ) (i : String)
        → set_contains (e, i) (unindex id o.session.expiry st.expiries)
          ≡ expires_at e (Maps.get i (Maps.remove id st.records))
    unindexed o hit e i = ground (
      arith,
      set_contains-unindex id o.session.expiry e i st.expiries,
      get-remove id i st.records,
      v.indexed e i,
      str_eq_iff id i,
    )

-- Inserting a record replaces the entry of the record that it replaces.
pub insert-IsConsistent :
    (id : String) (o : Owned) (st : MemoryState) → IsConsistent st → IsConsistent (insert id o st).1
unfolding insert
insert-IsConsistent id o st v = record {
  distinct = insert-IsDistinct id o _ cleared.distinct;
  ordered = index-IsOrdered id o.session.expiry _ cleared.ordered;
  indexed = λ e i. ground (
    arith,
    set_contains-index id o.session.expiry e i (remove id st).1.expiries,
    get-insert id i o (remove id st).1.records,
    get-remove_state id i st,
    cleared.indexed e i,
  );
}
  where
    cleared : IsConsistent (remove id st).1
    cleared = remove-IsConsistent id st v

pub clear-IsConsistent : (st : MemoryState) → IsConsistent (clear st)
unfolding clear set_contains Maps.get
clear-IsConsistent st = record { distinct = tt; ordered = tt; indexed = λ e i. refl }
