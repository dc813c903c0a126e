-- ===== src/Sql/Database.antt =====
-- The database that src/sqlx_store.rs talks to through sqlx, as a parameter: its states, its open
-- transactions, and what it answers to a statement with bound values.
use saysion.Prelude.{ℕ, String, Option, List, Result}

pub data Bind : Type 0 where
  text : String → Bind
  number : Option ℕ → Bind

-- A statement that fails may have been carried out. An open transaction that is dropped is rolled
-- back by the database, and leaves the state as it was.
pub record Database (D T : Type 0) : Type 0 where
  -- the number of rows affected
  pub execute : String → List Bind → D → Result ℕ × D
  pub fetch_optional : String → List Bind → D → Result (Option String)
  pub fetch_one : String → D → Result ℕ
  pub begin : D → Result T × D
  pub execute_in : String → List Bind → T → Result ℕ × T
  pub commit : T → D → Result (Unit {0}) × D
