-- ===== src/Memory/Batches.antt =====
-- What a batch of `remove_expired_candidates` does in src/memory_store.rs, and that its chunks
-- make no difference.
use native.Mathlib.Nat.{add_assoc}
use saysion.Prelude.{
  ℕ, zero, suc, ◌+◌, ◌≤◌, String, ◌≡◌, refl, sym, ap, Bool, true, false, ◌&&◌, ◌||◌, Option, none,
  some, List, [], ◌∷◌, ◌++◌, arith, str_eq, str_eq_iff, if◌then◌else◌, Bool-cases, inl, inr, length,
  take, drop, ltb, ◌∙◌, take-append-drop, length-drop,
}
use saysion.Maps
use saysion.Session.State.{Owned}
use saysion.Memory.State.{MemoryState, remove}
use saysion.Memory.Index.{IsConsistent, remove-IsConsistent, get-remove_state}
use saysion.Memory.Store.{count}
use saysion.Memory.Cleanup.{
  has_expired, remove_expired, remove_batch, remove_chunks, cleanup_batch_size,
}

abbrev pub mem : String → List String → Bool
mem j [] = false
mem j (i ∷ ids) = str_eq i j || mem j ids

-- Whether a record is expired depends on that record alone.
abbrev pub is_stale : ℕ → Option Owned → Bool
is_stale now none = false
is_stale now (some o) = elim o.session.expiry [ none ↦ false | some e ↦ ltb e now ]

pub has_expired_lem :
    (now : ℕ) (id : String) (st : MemoryState)
    → has_expired now id st ≡ is_stale now (Maps.get id st.records)
unfolding has_expired
has_expired_lem now id st = ground arith

pub get-remove_expired :
    (now : ℕ) (id j : String) (st : MemoryState)
    → Maps.get j (remove_expired now id st).1.records
      ≡ (if str_eq id j && has_expired now j st then none else Maps.get j st.records)
unfolding remove_expired
get-remove_expired now id j st = ground (arith, get-remove_state id j st, str_eq_iff id j)

-- A batch removes those of its candidates that are expired when it holds the lock, and leaves
-- every other record as it is: a renewed candidate, and whatever was no candidate.
pub get-remove_batch :
    (now : ℕ) (ids : List String) (j : String) (st : MemoryState)
    → Maps.get j (remove_batch now ids st).1.records
      ≡ (if mem j ids && has_expired now j st then none else Maps.get j st.records)
unfolding remove_batch
get-remove_batch now [] j st = refl
get-remove_batch now (id ∷ ids) j st =
    let st' = (remove_expired now id st).1 in
    ground (
      arith,
      get-remove_batch now ids j st',
      get-remove_expired now id j st,
      has_expired_lem now j st,
      has_expired_lem now j st',
      str_eq_iff id j,
    )

remove_expired-IsConsistent :
    (now : ℕ) (id : String) (st : MemoryState)
    → IsConsistent st
    → IsConsistent (remove_expired now id st).1
unfolding remove_expired
remove_expired-IsConsistent now id st v = elim (Bool-cases (has_expired now id st)) [
  | inl old ↦ rw (old, remove_expired) (remove-IsConsistent id st v)
  | inr live ↦ rw (live, remove_expired) v
]

pub remove_batch-IsConsistent :
    (now : ℕ) (ids : List String) (st : MemoryState)
    → IsConsistent st
    → IsConsistent (remove_batch now ids st).1
unfolding remove_batch
remove_batch-IsConsistent now [] st v = v
remove_batch-IsConsistent now (id ∷ ids) st v =
    remove_batch-IsConsistent now ids (remove_expired now id st).1
      (remove_expired-IsConsistent now id st v)

count-remove_expired :
    (now : ℕ) (id : String) (st : MemoryState)
    → IsConsistent st
    → (remove_expired now id st).0 + count (remove_expired now id st).1 ≡ count st
unfolding remove_expired count has_expired remove Maps.contains_key
count-remove_expired now id st v = ground (arith, Maps.size-remove id st.records v.distinct)

-- The number that a batch returns is the number of records that it removed.
pub count-remove_batch :
    (now : ℕ) (ids : List String) (st : MemoryState)
    → IsConsistent st
    → (remove_batch now ids st).0 + count (remove_batch now ids st).1 ≡ count st
unfolding remove_batch
count-remove_batch now [] st v = omega arith
count-remove_batch now (id ∷ ids) st v = omega (
  arith,
  count-remove_batch now ids (remove_expired now id st).1 (remove_expired-IsConsistent now id st v),
  count-remove_expired now id st v,
)

pub remove_batch-le :
    (now : ℕ) (ids : List String) (st : MemoryState) → (remove_batch now ids st).0 ≤ length ids
unfolding remove_batch remove_expired
remove_batch-le now [] st = omega arith
remove_batch-le now (id ∷ ids) st =
    ground (arith, remove_batch-le now ids (remove_expired now id st).1)

remove_batch-append :
    (now : ℕ) (ids more : List String) (st : MemoryState)
    → remove_batch now (ids ++ more) st ≡ (
      (remove_batch now ids st).0 + (remove_batch now more (remove_batch now ids st).1).0,
      (remove_batch now more (remove_batch now ids st).1).1,
    )
unfolding remove_batch
remove_batch-append now [] more st = ground arith
remove_batch-append now (id ∷ ids) more st =
    rw (remove_batch-append now ids more (remove_expired now id st).1) (
      ground (
        arith,
        add_assoc (remove_expired now id st).0 (remove_batch now ids (remove_expired now id st).1).0
            (remove_batch now more (remove_batch now ids (remove_expired now id st).1).1).0,
      ))

-- Where no other task uses the store meanwhile, the chunks do what one batch would do.
pub remove_chunks-eq-batch :
    (now fuel k : ℕ) (ids : List String) (st : MemoryState)
    → length ids ≤ fuel
    → remove_chunks now (λ _ s. s) fuel k ids st ≡ remove_batch now ids st
unfolding remove_chunks
remove_chunks-eq-batch now zero k [] st h = unfold remove_batch in refl
remove_chunks-eq-batch now zero k (id ∷ ids) st h = absurd (omega arith)
remove_chunks-eq-batch now (suc fuel) k [] st h = unfold remove_batch in refl
remove_chunks-eq-batch now (suc fuel) k (id ∷ ids) st h =
    rw (remove_chunks-eq-batch now fuel (k + 1) rest (remove_batch now chunk st).1 shorter) (
      sym (remove_batch-append now chunk rest st)
      ∙ ap (λ l. remove_batch now l st) (take-append-drop cleanup_batch_size (id ∷ ids)))
  where
    chunk : List String
    chunk = take cleanup_batch_size (id ∷ ids)

    rest : List String
    rest = drop cleanup_batch_size (id ∷ ids)

    shorter : length rest ≤ fuel
    shorter = unfold cleanup_batch_size in omega (arith, length-drop cleanup_batch_size (id ∷ ids))

get-remove_batch_live :
    (now : ℕ) (ids : List String) (j : String) (o : Owned) (st : MemoryState)
    → is_stale now (some o) ≡ false
    → Maps.get j st.records ≡ some o
    → Maps.get j (remove_batch now ids st).1.records ≡ some o
get-remove_batch_live now ids j o st live e =
    rw (get-remove_batch now ids j st, has_expired_lem now j st, e, live) (pick (mem j ids))
  where
    pick : (b : Bool) → (if b && false then none else some o) ≡ some o
    pick true = refl
    pick false = refl

-- Whatever other tasks do to the store between the chunks, a record that they leave alone and
-- that is not expired stays.
pub live_record_survives :
    (now : ℕ) (others : ℕ → MemoryState → MemoryState) (fuel k : ℕ) (ids : List String) (j : String)
    (o : Owned) (st : MemoryState)
    → is_stale now (some o) ≡ false
    → ((n : ℕ) (s : MemoryState)
        → Maps.get j s.records ≡ some o
        → Maps.get j (others n s).records ≡ some o)
    → Maps.get j st.records ≡ some o
    → Maps.get j (remove_chunks now others fuel k ids st).1.records ≡ some o
unfolding remove_chunks
live_record_survives now others zero k ids j o st live keep h = h
live_record_survives now others (suc fuel) k [] j o st live keep h = h
live_record_survives now others (suc fuel) k (id ∷ ids) j o st live keep h =
    live_record_survives now others fuel (k + 1) (drop cleanup_batch_size (id ∷ ids)) j o _ live
      keep
      (get-remove_batch_live now (take cleanup_batch_size (id ∷ ids)) j o (others k st) live
        (keep k st h))
