-- ===== src/Tests/Mongo.antt =====
-- The MongoDB store on a collection that is a map of documents.
use saysion.Prelude.{
  ℕ, String, ◌≡◌, refl, true, ◌⊎◌, Option, none, some, [], ◌∷◌, arith, Result, ok, err,
  duplicate_key, str_eq_refl, is_some, if◌then◌else◌,
}
use saysion.Maps
use saysion.Maps.{Map}
use saysion.Session.State.{Session, Owned}
use saysion.Session.Identity.{persistence_attempt}
use saysion.Session.Persist.{snapshot}
use saysion.Memory.Saves.{claimed}
use saysion.Backend.{Schedule}
use saysion.Backend.Rows.{saved}
use saysion.Mongo
use saysion.Mongo.{expiry_datetime, session_doc, store_session}
use saysion.Mongo.Documents.{SessionDoc, Collection, IsCollection}
use saysion.Mongo.Saves
use saysion.Tests.Fixtures.{program, family, newcomer}

abbrev pub Docs : Type 0
Docs = Map SessionDoc

abbrev pub delete : String → Docs → Result ℕ × Docs
delete id docs = if is_some (Maps.get id docs) then (ok 1, Maps.remove id docs) else (ok 0, docs)

abbrev pub insert : SessionDoc → Docs → Result (Unit {0}) × Docs
insert new docs =
    if is_some (Maps.get new.id docs)
    then (err duplicate_key, docs)
    else (ok tt, Maps.insert new.id new docs)

abbrev pub replace : String → SessionDoc → Docs → Result ℕ × Docs
replace id new docs =
    if is_some (Maps.get id docs) then (ok 1, Maps.insert id new docs) else (ok 0, docs)

abbrev pub coll : Collection Docs
coll = record {
  find_one = λ id docs. ok (Maps.get id docs);
  delete_one = delete;
  insert_one = insert;
  replace_one = replace;
  delete_many = λ docs. (ok (Maps.size docs), []);
  count_documents = λ docs. ok (Maps.size docs);
  create_index = λ model docs. (ok tt, docs);
}

missing : (id : String) → Maps.get {V = SessionDoc} id [] ≡ none
unfolding Maps.get
missing id = refl

pub coll-IsCollection : IsCollection coll
coll-IsCollection = record {
  doc = Maps.get;
  deletes_only = λ id j d h. ground (arith, h, Maps.get-remove id j d);
  inserts_only = λ new j d h. ground (arith, h, Maps.get-insert new.id j new d);
  replaces_only = λ id new j d h. ground (arith, h, Maps.get-insert id j new d);
  deletes = λ id n d h.
      (ground (arith, h, Maps.get-remove id id d, str_eq_refl id), λ more. ground (arith, h, more));
  inserts = λ new d h. (
    ground (arith, h),
    ground (arith, h, Maps.get-insert new.id new.id new d, str_eq_refl new.id),
  );
  replaces = λ id new d h.
      (ground (arith, h), ground (arith, h, Maps.get-insert id id new d, str_eq_refl id));
  clears = λ id n d h. missing id;
  finds = λ id d found h. ground (arith, h);
}

abbrev to_string : Owned → Result String
to_string o = ok "json"

abbrev alone : Schedule
alone = record { before_lock = []; before_finish = []; after_finish = [] }

-- A session whose record is that of another identity, and that record.
abbrev pub old : Docs
old = ("old", record { id = "old"; expires_at = none; session = "json" }) ∷ []

abbrev rotated : Session
rotated = record (newcomer "new") { rotation_from = some "old" }

store_session_puts_example :
    (origin : Option String) × (json : String) × ((persistence_attempt
        (family (some "old"))
        rotated).0
      ≡ ok origin)
    × (to_string (snapshot (claimed (family (some "old")) rotated) rotated) ≡ ok json)
    × ((j : String)
        → Maps.get j (store_session coll to_string alone rotated (family (some "old")) old).rows
          ≡ saved origin "new" (session_doc coll rotated json) j (Maps.get j old))
    × ((origin ≡ none) × (Maps.get "new" old ≡ none)
        ⊎ ((source : String) × (origin ≡ some source) × (is_some (Maps.get source old) ≡ true)))
    × (some "cookie" ≡ rotated.cookie_value)
unfolding program coll-IsCollection Mongo.store_session
store_session_puts_example =
    Saves.store_session_puts coll coll-IsCollection alone rotated to_string (family (some "old"))
      old (some "cookie") refl

rotation_revokes_first_example :
    let after = (store_session coll to_string alone rotated (family (some "old")) old).rows in
    (after ≡ old) ⊎ (Maps.get "old" after ≡ none)
unfolding program coll-IsCollection
rotation_revokes_first_example =
    Saves.rotation_revokes_first coll coll-IsCollection alone rotated to_string
      (family (some "old")) old "old" 1 refl refl refl
