-- ===== src/Session/State.antt =====
-- src/session.rs: the state of a `Session`. A clone copies the fields of the record `Session`;
-- the fields behind an `Arc`, which every clone of one family shares, are those of `Lineage`.
use saysion.Prelude.{
  ℕ, ◌+◌, ◌-◌, String, Bool, true, false, not, ◌||◌, Option, none, some, Result, ok, ◌>>=◌, ltb,
  opt_eq, str_eq, if◌then◌else◌,
}
use saysion.Maps.{Map}
use saysion.Lifecycle.{WriteState, unlocked}
use saysion.Session.Revision.{SessionData, with_values}
use saysion.Session.Revision

pub record Lineage : Type 0 where
  pub data_ : SessionData
  pub persisted_id : Option String
  pub creation_claimed : Bool
  pub lifecycle : WriteState
  pub destroy : Bool

-- A time is a number of nanoseconds since a fixed origin before every time that is used.
pub record Session : Type 0 where
  pub id : String
  pub expiry : Option ℕ
  pub cookie_value : Option String
  pub metadata_changed : Bool
  pub rotation_from : Option String
  pub fresh : Bool

-- A session that no clone shares, as a snapshot, a stored record or a loaded session is.
pub record Owned : Type 0 where
  pub session : Session
  pub lineage : Lineage

-- `Clone for Session`; the shared fields are those of the same lineage.
unfoldable pub clone : Session → Session
clone s = record s { cookie_value = none }

unfoldable pub is_destroyed : Lineage → Bool
is_destroyed l = l.destroy

unfoldable pub destroy : Lineage → Lineage
destroy l = record l { destroy = true }

-- The methods on the data, which take its lock.
unfoldable pub insert_raw : String → String → Lineage → Lineage
insert_raw key value l = record l { data_ = Revision.insert_raw key value l.data_ }

unfoldable pub remove : String → Lineage → Lineage
remove key l = record l { data_ = Revision.remove key l.data_ }

unfoldable pub get_raw : String → Lineage → Option String
get_raw key l = Revision.get_raw key l.data_

unfoldable pub len : Lineage → ℕ
len l = Revision.len l.data_

-- `to_string` is `serde_json::to_string`.
unfoldable pub insert {ℓ} :
    {A : Type ℓ} → (A → Result String) → String → A → Lineage → Result Lineage
insert to_string key value l = do text ← to_string value; ok (insert_raw key text l)

-- `from_str` is `serde_json::from_str`, with its error forgotten by `.ok()`.
unfoldable pub get {ℓ} : {A : Type ℓ} → (String → Option A) → String → Lineage → Option A
get from_str key l = elim (get_raw key l) [ none ↦ none | some text ↦ from_str text ]

unfoldable pub set_expiry : ℕ → Session → Session
set_expiry expiry s = elim s.expiry [
  | none ↦ record s { expiry = some expiry; metadata_changed = true }
  | some old ↦
      if ltb old expiry || ltb expiry old
      then record s { expiry = some expiry; metadata_changed = true }
      else s
]

unfoldable pub expire_in : ℕ → ℕ → Session → Session
unfolding set_expiry
expire_in now ttl s = set_expiry (now + ttl) s

unfoldable pub is_expired : ℕ → Session → Bool
is_expired now s = elim s.expiry [ none ↦ false | some expiry ↦ ltb expiry now ]

unfoldable pub validate : ℕ → Session → Option Session
unfolding is_expired
validate now s = if is_expired now s then none else some s

-- `none` also when the time left is negative.
unfoldable pub expires_in : ℕ → Session → Option ℕ
expires_in now s = elim s.expiry [
  | none ↦ none
  | some expiry ↦ if ltb expiry now then none else some (expiry - now)
]

unfoldable pub set_cookie_value : String → Session → Session
set_cookie_value cookie s =
    if not (opt_eq s.cookie_value (some cookie))
    then record s { cookie_value = some cookie; metadata_changed = true }
    else s

unfoldable pub into_cookie_value : Session → Option String
into_cookie_value s = s.cookie_value

unfoldable pub data_changed : Lineage → Session → Bool
data_changed l s = s.metadata_changed || Revision.is_dirty l.data_

unfoldable pub needs_persist : Lineage → Session → Bool
unfolding data_changed
needs_persist l s = data_changed l s || is_destroyed l

unfoldable pub reset_data_changed : Lineage → Session → Lineage × Session
reset_data_changed l s =
    (record l { data_ = Revision.reset l.data_ }, record s { metadata_changed = false })

-- `PartialEq for Session`
unfoldable pub eq : Session → Session → Bool
eq s other = str_eq other.id s.id

-- A lineage of new `Arc`s, over the given values.
unfoldable pub new_lineage : Map String → Option String → Lineage
unfolding with_values unlocked
new_lineage values persisted_id = record {
  data_ = with_values values;
  persisted_id = persisted_id;
  creation_claimed = false;
  lifecycle = unlocked;
  destroy = false;
}
