-- ===== src/Redis.antt =====
-- src/redis_store.rs: the Redis store, on a server that is a parameter.
pub mod Commands
pub mod Scan
pub mod Ttl
pub mod Writes
pub mod Outcomes
pub mod Entries
pub mod Saves
pub mod Progress
pub mod Contract
use Prim.Native.Char.{Char, code}
use Prim.Native.String
use saysion.Prelude.{
  ℕ, zero, suc, ◌+◌, ◌/◌, String, Bool, true, false, not, ◌&&◌, ◌||◌, Option, none, some, List, [],
  ◌∷◌, Error, session_conflict, out_of_range, Result, ok, err, ◌>>=◌, ◌==◌, ltb, str_eq, is_some,
  before, if◌then◌else◌,
}
use saysion.Lifecycle.{Poll, ready, SessionWriteGuard, finish}
use saysion.Session.Revision.{SaveRevision, u64_mod}
use saysion.Session.State.{Lineage, Session, Owned, expires_in}
use saysion.Session.Identity.{persistence_attempt}
use saysion.Session.Cookies.{External}
use saysion.Session.Actions.{act_all}
use saysion.Memory.Store.{abort_write}
use saysion.Backend.{Schedule, Outcome, write_record, attempted_record, destroy_record, load_record}
use saysion.Redis.Commands.{Server}

unfoldable pub default_prefix : String
default_prefix = "saysion/"

-- The connection manager, of a type that is a parameter.
pub record RedisStore (C : Type 0) : Type 0 where
  pub conn : C
  pub prefix : String

unfoldable pub from_connection_manager : {C : Type 0} → C → RedisStore C
unfolding default_prefix
from_connection_manager conn = record { conn = conn; prefix = default_prefix }

-- `connect` is `ConnectionManager::new_with_config`.
unfoldable pub new_with_config :
    {A B C : Type 0} → (A → B → Result C) → A → B → Result (RedisStore C)
unfolding from_connection_manager
new_with_config connect client config = do
  conn ← connect client config
  ok (from_connection_manager conn)

-- `config` is `ConnectionManagerConfig::default()`.
unfoldable pub new : {A B C : Type 0} → (A → B → Result C) → B → A → Result (RedisStore C)
unfolding new_with_config
new connect config client = new_with_config connect client config

-- `open_` is `Client::open`.
unfoldable pub from_url :
    {A B C : Type 0} → (String → Result A) → (A → B → Result C) → B → String → Result (RedisStore C)
unfolding new
from_url open_ connect config url = do client ← open_ url; new connect config client

unfoldable pub with_prefix : {C : Type 0} → String → RedisStore C → RedisStore C
with_prefix prefix store = record store { prefix = prefix }

abbrev pub is_special : ℕ → Bool
is_special c = c == b'*' || (c == b'?' || (c == b'[' || (c == b']' || c == b'\\')))

unfoldable pub prefix_pattern : String → String
prefix_pattern String.[] = "*"
prefix_pattern (String.◌∷◌ c prefix) =
    let rest = String.◌∷◌ c (prefix_pattern prefix) in
    if is_special (code c) then String.◌∷◌ "\\" rest else rest

-- Of a time to live in nanoseconds, rounded up. The result is a u64.
unfoldable pub ttl_millis : ℕ → Result ℕ
unfolding u64_mod
ttl_millis ttl =
    let millis = (ttl + 999999) / 1000000 in
    if ltb millis u64_mod then ok (if ltb millis 1 then 1 else millis) else err out_of_range

unfoldable pub key : String → String → String
key prefix id = before prefix id

-- What follows `SET` with `XX` or `NX`, and the script of a rotation.
unfoldable pub saved_some : Result (Option String) → Result (Unit {0})
saved_some (err e) = err e
saved_some (ok none) = err session_conflict
saved_some (ok (some answer)) = ok tt

unfoldable pub rotated_some : Result ℕ → Result (Unit {0})
rotated_some (err e) = err e
rotated_some (ok n) = if n == 0 then err session_conflict else ok tt

module _ {D : Type 0} (server : Server D) (prefix : String) where
  unfoldable pub load_session :
      External → (String → Result Owned) → ℕ → String → D → Result (Option Owned)
  unfolding load_record key
  load_session x from_str now cookie_value d =
      load_record x from_str now (λ id. server.get (key prefix id) d) cookie_value

  unfoldable pub delete_entry : String → D → Result (Unit {0}) × D
  unfolding key
  delete_entry id d =
      let (deleted, d') = server.del (key prefix id) d in ((do n ← deleted; ok tt), d')

  -- The Lua script. `ARGV[2]` is 0 for a session that does not expire.
  unfoldable pub rotate_script : String → String → String → ℕ → D → ℕ × D
  rotate_script old_key new_key json ttl d =
      if server.exists_in old_key d == 0 || server.exists_in new_key d == 1 then (0, d) else (
        1,
        server.del_in old_key (
            if ltb 0 ttl
            then server.set_in new_key json (some ttl) d
            else server.set_in new_key json none d),
      )

  unfoldable pub rotate_entry : String → String → String → ℕ → D → Result (Unit {0}) × D
  unfolding key rotate_script rotated_some
  rotate_entry old_id id json ttl d =
      let (rotated, d') =
        server.eval (rotate_script (key prefix old_id) (key prefix id) json ttl) d in
      (rotated_some rotated, d')

  unfoldable pub set_entry : Bool → String → String → Option ℕ → D → Result (Unit {0}) × D
  unfolding key saved_some
  set_entry replaces id json px d =
      let (saved, d') = server.set (key prefix id) json px replaces d in (saved_some saved, d')

  module _ (sched : Schedule) (s : Session) where
    -- A session that has expired is not written: the record of `id` is deleted, and no cookie
    -- issued. Each return drops the token and the guard.
    unfoldable pub expire_entry :
        String → SaveRevision → SessionWriteGuard → Lineage → D → Outcome D
    unfolding delete_entry abort_write finish act_all
    expire_entry id r g l d =
        let l' = act_all sched.before_finish l in
        let (deleted, d') = delete_entry id d in
        let (settled, g') = finish l'.destroy g in
        elim deleted [
          | err e ↦ record { answer = ready (err e); lineage = abort_write r g l'; rows = d' }
          | ok _ ↦ elim settled [
            | err e ↦ record { answer = ready (err e); lineage = abort_write r g' l'; rows = d' }
            | ok _ ↦ record { answer = ready (ok none); lineage = abort_write r g' l'; rows = d' }
          ]
        ]

    -- A write that may be given a time to live.
    unfoldable pub timed_entry :
        (ℕ → D → Result (Unit {0}) × D)
        → ℕ
        → SaveRevision
        → SessionWriteGuard
        → Lineage
        → D
        → Outcome D
    unfolding ttl_millis write_record delete_entry abort_write
    timed_entry save ttl r g l d = elim (ttl_millis ttl) [
      | err e ↦ record { answer = ready (err e); lineage = abort_write r g l; rows = d }
      | ok millis ↦ write_record delete_entry sched s (save millis) r g l d
    ]

    -- The part of `store_session` for a session under a new identity.
    unfoldable pub rotated_entry :
        ℕ → String → String → SaveRevision → SessionWriteGuard → Lineage → D → Outcome D
    unfolding expires_in expire_entry timed_entry rotate_entry write_record delete_entry
    rotated_entry now old_id json r g l d = elim s.expiry [
      | none ↦ write_record delete_entry sched s (rotate_entry old_id s.id json 0) r g l d
      | some _ ↦ elim (expires_in now s) [
        | none ↦ expire_entry old_id r g l d
        | some ttl ↦ timed_entry (rotate_entry old_id s.id json) ttl r g l d
      ]
    ]

    -- The part of `store_session` for a session under its own identity.
    unfoldable pub own_entry :
        ℕ → Bool → String → SaveRevision → SessionWriteGuard → Lineage → D → Outcome D
    unfolding expires_in expire_entry timed_entry set_entry write_record delete_entry
    own_entry now replaces json r g l d = elim (expires_in now s) [
      | none ↦
          if is_some s.expiry
          then expire_entry s.id r g l d
          else write_record delete_entry sched s (set_entry replaces s.id json none) r g l d
      | some ttl ↦ timed_entry (λ millis. set_entry replaces s.id json (some millis)) ttl r g l d
    ]

    -- The part of `store_session` that holds the write guard.
    unfoldable pub write_entry :
        ℕ → Option String → String → SaveRevision → SessionWriteGuard → Lineage → D → Outcome D
    unfolding rotated_entry own_entry
    write_entry now none json r g l d = own_entry now false json r g l d
    write_entry now (some old_id) json r g l d =
        if not (str_eq old_id s.id)
        then rotated_entry now old_id json r g l d
        else own_entry now true json r g l d

  -- `to_string` is `serde_json::to_string`.
  unfoldable pub store_session :
      (Owned → Result String) → Schedule → ℕ → Session → Lineage → D → Outcome D
  unfolding persistence_attempt attempted_record write_entry
  store_session to_string sched now s l d =
      let (attempt, l') = persistence_attempt l s in
      attempted_record to_string sched s (write_entry sched s now) attempt l' d

  unfoldable pub destroy_session : Session → Lineage → D → Poll (Result (Unit {0})) × Lineage × D
  unfolding destroy_record delete_entry
  destroy_session s l d = destroy_record delete_entry s l d
