-- ===== src/Tests/Fixtures.antt =====
-- Sessions, families, records and stand-ins for the crates, for the tests.
use saysion.Prelude.{
  ℕ, zero, suc, ◌+◌, ◌*◌, ◌/◌, String, true, false, Option, none, some, List, [], ◌∷◌, ok, err,
  invalid_text, length, byte_len, ◌==◌, if◌then◌else◌,
}
use saysion.Prelude.{str_eq, str_eq_iff, ◌≡◌, ◌≢◌, arith}
use saysion.Maps
use saysion.Lifecycle.{WriteState}
use saysion.Session.Revision
use saysion.Session.Revision.{
  SessionData, with_values, capture, acknowledge, drop_revision, next_revision, u64_mod, is_dirty,
}
use saysion.Session.State.{
  Lineage, Session, Owned, is_destroyed, destroy, clone, is_expired, data_changed, new_lineage,
}
use saysion.Session.Identity.{
  may_replace, persistence_origin, mark_persisted, claim_creation, persistence_attempt, rotate,
}
use saysion.Session.Cookies.{
  External, decode_slice, id_from_cookie_value, generate_cookie, new, regenerate,
  server_cookie_bytes, server_cookie_encoded_len,
}
use saysion.Session.Persist.{
  snapshot, persistence_snapshot, capture_revision, begin_backend_write, begin_guarded_write,
  check_write, recheck_origin, release_write, deletion_target, begin_delete, validate_loaded,
  loaded_data, mark_loaded,
}
use saysion.Session.Actions.{act, act_all}
use saysion.Session.Tracking.{loaded}
use saysion.Lifecycle
use saysion.Memory.State
use saysion.Memory.State.{MemoryState}
use saysion.Memory.Store
use saysion.Memory.Store.{Schedule}
use saysion.Memory.Cleanup

abbrev pub replicate : ℕ → ℕ → List ℕ
replicate zero b = []
replicate (suc n) b = b ∷ replicate n b

abbrev pub letters : ℕ → String
letters zero = String.[]
letters (suc n) = String.◌∷◌ "A" (letters n)

abbrev pub key64 : List ℕ
key64 = replicate 64 7

-- Texts of the lengths of base64, all of one letter; a text of 88 bytes stands for `key64`.
abbrev pub crates : External
crates = record {
  base64_encode = λ bytes. letters ((length bytes + 2) / 3 * 4);
  base64_decode = λ text. if byte_len text == 88 then ok key64 else err invalid_text;
  blake3 = λ bytes. replicate 32 1;
}

-- The identity that `crates` gives the cookie of `key64`.
abbrev pub id44 : String
id44 = letters 44

abbrev pub unlocked : WriteState
unlocked = record { uncertain = false; locked = false }

abbrev pub values : List (String × String)
values = ("user", "1") ∷ []

abbrev pub data_ : SessionData
data_ = record {
  values = values;
  revision = 3;
  persisted_revision = 2;
  active_saves = 0;
  overlapping_saves = false;
  uncertain_save = false;
}

abbrev pub family : Option String → Lineage
family persisted = record {
  data_ = data_;
  persisted_id = persisted;
  creation_claimed = false;
  lifecycle = unlocked;
  destroy = false;
}

-- A new session, which expires at 100.
abbrev pub newcomer : String → Session
newcomer id = record {
  id = id;
  expiry = some 100;
  cookie_value = some "cookie";
  metadata_changed = false;
  rotation_from = none;
  fresh = true;
}

-- The same as it is loaded.
abbrev pub visitor : String → Session
visitor id = record {
  id = id;
  expiry = some 100;
  cookie_value = none;
  metadata_changed = false;
  rotation_from = none;
  fresh = false;
}

abbrev pub stored : String → ℕ → Owned
stored id expiry = record {
  session = record {
    id = id;
    expiry = some expiry;
    cookie_value = none;
    metadata_changed = false;
    rotation_from = none;
    fresh = false;
  };
  lineage = family (some id);
}

abbrev pub bare : MemoryState
bare = record { records = []; expiries = [] }

-- Two records, of which one expires at 10 and the other at 100.
abbrev pub pair_ : MemoryState
pair_ = record {
  records = ("old", stored "old" 10) ∷ ("live", stored "live" 100) ∷ [];
  expiries = (10, "old") ∷ (100, "live") ∷ [];
}

abbrev pub quiet : Schedule
quiet = record { before_lock = []; before_state = []; before_finish = []; after_finish = [] }

-- A store with a record that expires at 10 and one that expires at 100.
abbrev pub full : MemoryState
full =
    (State.insert "live" (stored "live" 100) (State.insert "old" (stored "old" 10) State.empty).1).1

pub str_ne : (s t : String) → str_eq s t ≡ false → s ≢ t
str_ne s t h e = ground (arith, str_eq_iff s t)

-- Everything that a test runs.
unfoldable pub program : Unit {0}
unfolding str_eq byte_len Maps.get Maps.insert Maps.remove Maps.contains_key Maps.size
    Revision.insert_raw Revision.remove with_values capture acknowledge drop_revision next_revision
    u64_mod is_dirty is_destroyed destroy clone is_expired data_changed new_lineage may_replace
    persistence_origin mark_persisted claim_creation persistence_attempt rotate decode_slice
    id_from_cookie_value generate_cookie new regenerate server_cookie_bytes
    server_cookie_encoded_len snapshot persistence_snapshot capture_revision begin_backend_write
    begin_guarded_write check_write recheck_origin release_write deletion_target begin_delete
    validate_loaded loaded_data mark_loaded act act_all loaded State.entry_lt State.set_contains
    State.set_place State.set_insert State.set_remove State.empty State.index State.unindex
    State.remove State.insert State.scan State.expired_candidates Store.store_session
    Store.destroy_session Store.count Store.find_live Store.load_session Cleanup.cleanup_batch
    Cleanup.has_expired Cleanup.remove_chunks Cleanup.cleanup_batch_size Cleanup.max_cleanup_limit
    Lifecycle.write Lifecycle.delete Lifecycle.finish Lifecycle.matches Lifecycle.drop_write
    Lifecycle.drop_delete Lifecycle.require_cleanup Lifecycle.confirm_removed
program = tt
