-- ===== src/Session/Tracking.antt =====
-- Change tracking in src/session.rs under interleaving: the edits of request-local clones, and
-- saves that are captured, reach the backend, and are acknowledged or dropped in any order.
use saysion.Prelude.{
  suc, ◌+◌, ◌≤◌, ◌<◌, String, ◌≡◌, refl, sym, ap, Bool, true, false, List, [], ◌∷◌, ◌++◌, All,
  arith, length, length-append, Bool-cases, inl, inr, ◌∙◌,
}
use saysion.Maps
use saysion.Maps.{Map}
use saysion.Session.Revision.{
  SessionData, SaveRevision, with_values, capture, acknowledge, drop_revision, insert_raw, remove,
  is_dirty, next_revision, u64_mod,
}

-- A captured save: its token, the values that it sends, and whether they reached the backend.
pub record Save : Type 0 where
  pub token : SaveRevision
  pub values : Map String
  pub written : Bool

-- The shared data of one clone family, its live saves, and the values in the backend.
pub record System : Type 0 where
  pub data_ : SessionData
  pub saves : List Save
  pub backend : Map String

abbrev pub begun : System → Save
begun s = record { token = (capture s.data_).0; values = s.data_.values; written = false }

-- One step of any clone or any save. A save is acknowledged only after its write was confirmed,
-- and a write that lands does so while its token lives. Fewer than 2 ^ 64 edits are made.
pub data Step (s : System) : System → Type 0 where
  inserts :
      (key value : String)
      → s.data_.revision + 1 < u64_mod
      → Step s (record s { data_ = insert_raw key value s.data_ })
  removes :
      (key : String)
      → s.data_.revision + 1 < u64_mod
      → Step s (record s { data_ = remove key s.data_ })
  captures : Step s (record s { data_ = (capture s.data_).1; saves = begun s ∷ s.saves })
  writes :
      (before after : List Save) (t : Save)
      → s.saves ≡ before ++ t ∷ after
      → Step s
          (record s { saves = before ++ record t { written = true } ∷ after; backend = t.values })
  acknowledges :
      (before after : List Save) (t : Save)
      → s.saves ≡ before ++ t ∷ after
      → t.written ≡ true
      → Step s (record s { data_ = acknowledge t.token s.data_; saves = before ++ after })
  drops :
      (before after : List Save) (t : Save)
      → s.saves ≡ before ++ t ∷ after
      → Step s (record s { data_ = drop_revision t.token s.data_; saves = before ++ after })

pub data Reach (s : System) : System → Type 0 where
  here : Reach s s
  next : {t u : System} → Reach s t → Step t u → Reach s u

-- A session that was just loaded: the backend holds its values.
unfoldable pub loaded : Map String → System
unfolding with_values
loaded values = record { data_ = with_values values; saves = []; backend = values }

-- A live save is no older than the acknowledged revision, and one of the current revision
-- carries the current values.
abbrev Recent : SessionData → Save → Type 0
Recent d t =
    (d.persisted_revision ≤ t.token.revision)
    × (t.token.revision ≤ d.revision)
    × (t.token.revision ≡ d.revision → t.values ≡ d.values)

abbrev Landed : Map String → Save → Type 0
Landed backend t = t.written ≡ true → backend ≡ t.values

record Inv (s : System) : Type 0 where
  counted : s.data_.active_saves ≡ length s.saves
  ordered : s.data_.persisted_revision ≤ s.data_.revision
  recent : All (Recent s.data_) s.saves
  alone : s.data_.overlapping_saves ≡ false → length s.saves ≤ 1
  doubtful : s.data_.overlapping_saves ≡ true → s.data_.uncertain_save ≡ true
  landed_ : s.data_.overlapping_saves ≡ false → All (Landed s.backend) s.saves
  clean :
      s.data_.uncertain_save ≡ false
      → s.data_.revision ≡ s.data_.persisted_revision
      → s.backend ≡ s.data_.values

module _ (P : Save → Type 0) where
  All-middle : (xs ys : List Save) (t : Save) → All P (xs ++ t ∷ ys) → P t × All P (xs ++ ys)
  All-middle [] ys t h = h
  All-middle (x ∷ xs) ys t h = let (p, rest) = All-middle xs ys t h.1 in (p, (h.0, rest))

  All-replace : (xs ys : List Save) (t u : Save) → P u → All P (xs ++ t ∷ ys) → All P (xs ++ u ∷ ys)
  All-replace [] ys t u p h = (p, h.1)
  All-replace (x ∷ xs) ys t u p h = (h.0, All-replace xs ys t u p h.1)

  All-imp : (Q : Save → Type 0) (f : (t : Save) → P t → Q t) (xs : List Save) → All P xs → All Q xs
  All-imp Q f [] h = tt
  All-imp Q f (x ∷ xs) h = (f x h.0, All-imp Q f xs h.1)

length_middle : (xs ys : List Save) (t : Save) → length (xs ++ t ∷ ys) ≡ suc (length (xs ++ ys))
length_middle xs ys t = omega (arith, length-append xs (t ∷ ys), length-append xs ys)

loaded-Inv : (values : Map String) → Inv (loaded values)
unfolding loaded
loaded-Inv values = record {
  counted = refl;
  ordered = omega arith;
  recent = tt;
  alone = λ _. omega arith;
  doubtful = λ e. cc;
  landed_ = λ _. tt;
  clean = λ _ _. refl;
}

-- An edit that advances the revision.
edited-Inv :
    (s : System) (values : Map String)
    → Inv s
    → s.data_.revision + 1 < u64_mod
    → Inv (record s {
      data_ = record s.data_ { values = values; revision = next_revision s.data_.revision };
    })
unfolding u64_mod next_revision
edited-Inv s values v h = record {
  counted = v.counted;
  ordered = omega (arith, v.ordered);
  recent =
      All-imp _ _ (λ t r. (r.0, omega (arith, r.1), λ e. absurd (omega (arith, r.1, e)))) s.saves
        v.recent;
  alone = v.alone;
  doubtful = v.doubtful;
  landed_ = v.landed_;
  clean = λ _ e. absurd (omega (arith, v.ordered, e));
}

All-none : (P : Save → Type 0) (xs : List Save) → length xs ≡ 0 → All P xs
All-none P [] h = tt
All-none P (x ∷ xs) h = absurd (omega arith)

captures-Inv :
    (s : System) → Inv s → Inv (record s { data_ = (capture s.data_).1; saves = begun s ∷ s.saves })
unfolding capture
captures-Inv s v = record {
  counted = omega (arith, v.counted);
  ordered = v.ordered;
  recent = ((v.ordered, omega arith, λ _. refl), v.recent);
  alone = λ e. ground (arith, v.counted);
  doubtful = λ e. ground arith;
  landed_ = λ e. (λ f. cc, All-none _ s.saves (ground (arith, v.counted)));
  clean = λ e r. v.clean (ground arith) r;
}

-- What a save wrote, when it is the only live one.
writes-Inv :
    (s : System) (before after : List Save) (t : Save)
    → Inv s
    → s.saves ≡ before ++ t ∷ after
    → Inv (record s { saves = before ++ record t { written = true } ∷ after; backend = t.values })
writes-Inv s before after t v e = record {
  counted = omega (arith, v.counted, same, ap length e);
  ordered = v.ordered;
  recent = All-replace _ before after t _ (here_.0) (rw e at v.recent);
  alone = λ q. omega (arith, v.alone q, same, ap length e);
  doubtful = v.doubtful;
  landed_ = λ q. alone_Landed before after t (omega (arith, v.alone q, ap length e));
  clean = λ u r. here_.0.2 (omega (arith, here_.0.0, here_.0.1, r));
}
  where
    here_ : Recent s.data_ t × All (Recent s.data_) (before ++ after)
    here_ = All-middle _ before after t (rw e at v.recent)

    same : length (before ++ record t { written = true } ∷ after) ≡ length (before ++ t ∷ after)
    same = omega (
      arith,
      length_middle before after t,
      length_middle before after (record t { written = true }),
    )

    alone_Landed :
        (xs ys : List Save) (t : Save)
        → length (xs ++ t ∷ ys) ≤ 1
        → All (Landed t.values) (xs ++ record t { written = true } ∷ ys)
    alone_Landed [] [] t h = (λ _. refl, tt)
    alone_Landed [] (y ∷ ys) t h = absurd (omega arith)
    alone_Landed (x ∷ xs) ys t h = absurd (omega (arith, length_middle xs ys t))

acknowledges-Inv :
    (s : System) (before after : List Save) (t : Save)
    → Inv s
    → s.saves ≡ before ++ t ∷ after
    → t.written ≡ true
    → Inv (record s { data_ = acknowledge t.token s.data_; saves = before ++ after })
unfolding acknowledge
acknowledges-Inv s before after t v e w = elim (Bool-cases s.data_.overlapping_saves) [
  | inl shared ↦
      rw (shared, acknowledge)
        (record {
          counted = omega (arith, v.counted, ap length e, length_middle before after t);
          ordered = v.ordered;
          recent = live.1;
          alone = λ q. cc;
          doubtful = λ _. refl;
          landed_ = λ q. cc;
          clean = λ u r. cc;
        })
  | inr single ↦
      let short : length (before ++ after) ≡ 0 =
        omega (arith, v.alone single, ap length e, length_middle before after t) in
      rw (single, acknowledge)
        (record {
          counted = omega (arith, v.counted, ap length e, length_middle before after t);
          ordered = live.0.1;
          recent = All-none _ _ short;
          alone = λ q. omega (arith, short);
          doubtful = λ q. cc;
          landed_ = λ q. All-none _ _ short;
          clean = λ u r.
              (All-middle _ before after t (rw e at (v.landed_ single))).0 w ∙ live.0.2 (sym r);
        })
]
  where
    live : Recent s.data_ t × All (Recent s.data_) (before ++ after)
    live = All-middle _ before after t (rw e at v.recent)

drops-Inv :
    (s : System) (before after : List Save) (t : Save)
    → Inv s
    → s.saves ≡ before ++ t ∷ after
    → Inv (record s { data_ = drop_revision t.token s.data_; saves = before ++ after })
unfolding drop_revision
drops-Inv s before after t v e = record {
  counted = omega (arith, v.counted, ap length e, length_middle before after t);
  ordered = v.ordered;
  recent = (All-middle _ before after t (rw e at v.recent)).1;
  alone = λ q. omega (arith, v.alone q, ap length e, length_middle before after t);
  doubtful = λ _. refl;
  landed_ = λ q. (All-middle _ before after t (rw e at (v.landed_ q))).1;
  clean = λ u r. cc;
}

Step-Inv : {s u : System} → Step s u → Inv s → Inv u
unfolding insert_raw remove
Step-Inv {s} (inserts key value h) v =
    ground (arith, edited-Inv s (Maps.insert key value s.data_.values) v h)
Step-Inv {s} (removes key h) v = ground (arith, edited-Inv s (Maps.remove key s.data_.values) v h)
Step-Inv {s} captures v = captures-Inv s v
Step-Inv {s} (writes before after t e) v = writes-Inv s before after t v e
Step-Inv {s} (acknowledges before after t e w) v = acknowledges-Inv s before after t v e w
Step-Inv {s} (drops before after t e) v = drops-Inv s before after t v e

Reach-Inv : {s u : System} → Inv s → Reach s u → Inv u
Reach-Inv v here = v
Reach-Inv v (next r st) = Step-Inv st (Reach-Inv v r)

-- However fewer than 2 ^ 64 edits, and saves, of a loaded session interleave, if the data is not
-- marked as changed then the backend holds exactly its current values; provided that a save is
-- acknowledged only after its write reached the backend, and that no write reaches the backend
-- after its save was acknowledged or dropped.
pub clean_data_is_persisted :
    (values : Map String) (s : System)
    → Reach (loaded values) s
    → is_dirty s.data_ ≡ false
    → s.backend ≡ s.data_.values
unfolding is_dirty
clean_data_is_persisted values s r h =
    (Reach-Inv (loaded-Inv values) r).clean (ground arith) (ground arith)
