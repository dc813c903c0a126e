-- ===== src/Session/Revision.antt =====
-- src/session.rs: `SessionData`, the map that request-local clones share, and `SaveRevision`,
-- one captured save's acknowledgement. `revision` is a u64 and wraps; `active_saves` is a usize
-- that counts live tokens, so it neither wraps nor goes below zero.
use saysion.Prelude.{
  ℕ, ◌+◌, ◌-◌, ◌%◌, ◌^◌, String, Bool, true, false, not, ◌||◌, Option, some, opt_eq, ◌==◌,
  if◌then◌else◌, is_some,
}
use saysion.Maps
use saysion.Maps.{Map}

pub record SessionData : Type 0 where
  pub values : Map String
  pub revision : ℕ
  pub persisted_revision : ℕ
  pub active_saves : ℕ
  pub overlapping_saves : Bool
  pub uncertain_save : Bool

-- `SessionData { values, ..SessionData::default() }`
unfoldable pub with_values : Map String → SessionData
with_values values = record {
  values = values;
  revision = 0;
  persisted_revision = 0;
  active_saves = 0;
  overlapping_saves = false;
  uncertain_save = false;
}

-- A token that is not completed yet. Its `data` pointer is the data it is passed with; a
-- completed token does not exist.
pub record SaveRevision : Type 0 where
  pub revision : ℕ

unfoldable pub capture : SessionData → SaveRevision × SessionData
capture d = (
  record { revision = d.revision },
  record d {
    overlapping_saves = not (d.active_saves == 0);
    uncertain_save = if d.active_saves == 0 then d.uncertain_save else true;
    active_saves = d.active_saves + 1;
  },
)

unfoldable pub acknowledge : SaveRevision → SessionData → SessionData
acknowledge r d =
    if d.overlapping_saves
    then record d { uncertain_save = true; active_saves = d.active_saves - 1 }
    else record d {
      persisted_revision = r.revision;
      uncertain_save = false;
      active_saves = d.active_saves - 1;
    }

-- `Drop for SaveRevision`, of a token that was not acknowledged.
unfoldable pub drop_revision : SaveRevision → SessionData → SessionData
drop_revision r d = record d { uncertain_save = true; active_saves = d.active_saves - 1 }

unfoldable pub u64_mod : ℕ
u64_mod = 2 ^ 64

-- `wrapping_add(1)`
unfoldable pub next_revision : ℕ → ℕ
unfolding u64_mod
next_revision n = (n + 1) % u64_mod

unfoldable pub insert_raw : String → String → SessionData → SessionData
insert_raw key value d =
    if not (opt_eq (Maps.get key d.values) (some value))
    then record d { values = Maps.insert key value d.values; revision = next_revision d.revision }
    else d

unfoldable pub remove : String → SessionData → SessionData
remove key d =
    if is_some (Maps.get key d.values)
    then record d { values = Maps.remove key d.values; revision = next_revision d.revision }
    else d

unfoldable pub get_raw : String → SessionData → Option String
get_raw key d = Maps.get key d.values

unfoldable pub len : SessionData → ℕ
len d = Maps.size d.values

unfoldable pub is_empty : SessionData → Bool
is_empty d = Maps.size d.values == 0

-- The part of `Session::data_changed` that is read under the data lock.
unfoldable pub is_dirty : SessionData → Bool
is_dirty d = d.uncertain_save || not (d.revision == d.persisted_revision)

-- The part of `Session::reset_data_changed` that is written under the data lock.
unfoldable pub reset : SessionData → SessionData
reset d = record d { persisted_revision = d.revision; uncertain_save = false }
