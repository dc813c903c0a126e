-- ===== src/Redis/Commands.antt =====
-- The server that src/redis_store.rs talks to through its connection manager, as a parameter: its
-- states and what it answers.
use saysion.Prelude.{
  ℕ, String, ◌≡◌, Bool, false, Option, none, some, List, Result, ok, str_eq, is_some, if◌then◌else◌,
}
use saysion.Backend.Rows.{deleted, put}

-- A command that fails may have been carried out. `PX` is in milliseconds. `exists_in`, `set_in` and
-- `del_in` are what `redis.call` does inside a script, which the server runs as one step.
pub record Server (D : Type 0) : Type 0 where
  pub get : String → D → Result (Option String)
  pub del : String → D → Result ℕ × D
  -- the key, the value, `PX`, and `XX` if the test holds or else `NX`
  pub set : String → String → Option ℕ → Bool → D → Result (Option String) × D
  pub eval : (D → ℕ × D) → D → Result ℕ × D
  -- the cursor, `MATCH` and `COUNT`; the next cursor and the keys
  pub scan : ℕ → String → ℕ → D → Result (ℕ × List String)
  pub unlink : List String → D → Result ℕ × D
  pub exists_in : String → D → ℕ
  pub set_in : String → String → Option ℕ → D → D
  pub del_in : String → D → D

-- A value and the time to live that it was given.
abbrev pub Entry : Type 0
Entry = String × Option ℕ

-- What the store relies on: the commands do what the manual of Redis says, while no key expires and
-- no other client writes. No command touches another key, also when it fails.
pub record IsServer {D : Type 0} (server : Server D) : Type 0 where
  pub entry : String → D → Option Entry
  pub gets :
      (k : String) (d : D) (found : Option String)
      → server.get k d ≡ ok found
      → found ≡ elim (entry k d) [ none ↦ none | some (value, _) ↦ some value ]
  pub dels_only :
      (k j : String) (d : D) → str_eq k j ≡ false → entry j (server.del k d).1 ≡ entry j d
  pub dels :
      (k : String) (n : ℕ) (d : D) → (server.del k d).0 ≡ ok n → entry k (server.del k d).1 ≡ none
  pub sets_only :
      (k value : String) (px : Option ℕ) (xx : Bool) (j : String) (d : D)
      → str_eq k j ≡ false
      → entry j (server.set k value px xx d).1 ≡ entry j d
  pub sets :
      (k value : String) (px : Option ℕ) (xx : Bool) (answer : String) (d : D)
      → (server.set k value px xx d).0 ≡ ok (some answer)
      → (is_some (entry k d) ≡ xx) × (entry k (server.set k value px xx d).1 ≡ some (value, px))
  pub evals :
      (script : D → ℕ × D) (n : ℕ) (d : D)
      → (server.eval script d).0 ≡ ok n
      → script d ≡ (n, (server.eval script d).1)
  pub exists_tells :
      (k : String) (d : D) → server.exists_in k d ≡ (if is_some (entry k d) then 1 else 0)
  pub set_puts :
      (k value : String) (px : Option ℕ) (j : String) (d : D)
      → entry j (server.set_in k value px d) ≡ put k (value, px) j (entry j d)
  pub del_drops : (k j : String) (d : D) → entry j (server.del_in k d) ≡ deleted k j (entry j d)
