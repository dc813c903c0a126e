-- ===== src/Mongo/Documents.antt =====
-- The collection that src/mongodb_store.rs talks to through the driver, as a parameter: its states
-- and what it answers.
use saysion.Prelude.{
  ℕ, String, ◌≡◌, ◌≢◌, Option, none, some, List, Result, ok, str_eq, is_some, true, false,
}

pub record SessionDoc : Type 0 where
  pub id : String
  pub expires_at : Option ℕ
  pub session : String

-- The keys with their directions, and `expire_after` in seconds.
pub record IndexModel : Type 0 where
  pub keys : List (String × ℕ)
  pub expire_after : Option ℕ

-- A document is looked for by its `_id`, and `delete_many` and `count_documents` take the filter
-- that matches each. A call that fails may have been carried out.
pub record Collection (D : Type 0) : Type 0 where
  pub find_one : String → D → Result (Option SessionDoc)
  -- `deleted_count`
  pub delete_one : String → D → Result ℕ × D
  pub insert_one : SessionDoc → D → Result (Unit {0}) × D
  -- `matched_count`
  pub replace_one : String → SessionDoc → D → Result ℕ × D
  pub delete_many : D → Result ℕ × D
  pub count_documents : D → Result ℕ
  pub create_index : IndexModel → D → Result (Unit {0}) × D

-- What the store relies on: the calls do what the manual of MongoDB says, when no other client
-- writes to the collection meanwhile. No call touches a document of another `_id`, also when it
-- fails.
pub record IsCollection {D : Type 0} (coll : Collection D) : Type 0 where
  pub doc : String → D → Option SessionDoc
  pub deletes_only :
      (id j : String) (d : D) → str_eq id j ≡ false → doc j (coll.delete_one id d).1 ≡ doc j d
  pub inserts_only :
      (new : SessionDoc) (j : String) (d : D)
      → str_eq new.id j ≡ false
      → doc j (coll.insert_one new d).1 ≡ doc j d
  pub replaces_only :
      (id : String) (new : SessionDoc) (j : String) (d : D)
      → str_eq id j ≡ false
      → doc j (coll.replace_one id new d).1 ≡ doc j d
  pub deletes :
      (id : String) (n : ℕ) (d : D)
      → (coll.delete_one id d).0 ≡ ok n
      → (doc id (coll.delete_one id d).1 ≡ none) × (n ≢ 0 → is_some (doc id d) ≡ true)
  pub inserts :
      (new : SessionDoc) (d : D)
      → (coll.insert_one new d).0 ≡ ok tt
      → (doc new.id d ≡ none) × (doc new.id (coll.insert_one new d).1 ≡ some new)
  pub replaces :
      (id : String) (new : SessionDoc) (d : D)
      → (coll.replace_one id new d).0 ≡ ok 1
      → (is_some (doc id d) ≡ true) × (doc id (coll.replace_one id new d).1 ≡ some new)
  pub finds :
      (id : String) (d : D) (found : Option SessionDoc)
      → coll.find_one id d ≡ ok found
      → found ≡ doc id d
  pub clears :
      (id : String) (n : ℕ) (d : D)
      → (coll.delete_many d).0 ≡ ok n
      → doc id (coll.delete_many d).1 ≡ none
