-- ===== src/Tests/Redis.antt =====
-- The Redis store on a server that is a map of values with times to live.
use Prim.Native.Char.{code}
use saysion.Prelude.{
  ℕ, ◌≤◌, ◌<◌, ◌*◌, ◌+◌, String, ◌≡◌, refl, sym, ap, ◌∙◌, Bool, true, false, not, ◌&&◌, ◌⊎◌, inl,
  Option, none, some, List, [], ◌∷◌, arith, Error, Result, ok, err, out_of_range, str_eq,
  str_eq_refl, is_some, starts_with, ◌==◌, if◌then◌else◌,
}
use saysion.Maps
use saysion.Maps.{Map}
use saysion.Session.Revision.{u64_mod}
use saysion.Session.State.{Owned}
use saysion.Session.Identity.{persistence_attempt}
use saysion.Session.Persist.{snapshot}
use saysion.Memory.Saves.{claimed}
use saysion.Backend.{Schedule}
use saysion.Redis
use saysion.Redis.{prefix_pattern, ttl_millis, store_session}
use saysion.Redis.Commands.{Entry, Server, IsServer}
use saysion.Redis.Outcomes.{Expired, Live}
use saysion.Redis.Saves
use saysion.Redis.Ttl
use saysion.Redis.Scan
use saysion.Redis.Scan.{count, clear_store}
use saysion.Redis.Scan.Chunks.{holds}
use saysion.Redis.Scan.Pattern
use saysion.Redis.Scan.Pattern.{Glob}
use saysion.Redis.Scan.Ends
use saysion.Redis.Scan.Ends.{ScanEnds}
use saysion.Redis.Scan.Clears
use saysion.Redis.Scan.Clears.{IsScanned}
use saysion.Tests.Fixtures.{program, id44, family, newcomer}

-- Patterns of literal and escaped characters that a star may end.
abbrev matches : Bool → String → String → Bool
matches escaped String.[] String.[] = true
matches escaped String.[] (String.◌∷◌ d s) = false
matches escaped (String.◌∷◌ c p) String.[] =
    let rest = matches true p String.[] in
    if not escaped && code c == b'*'
    then true
    else if not escaped && code c == b'\\'
    then rest
    else false
matches escaped (String.◌∷◌ c p) (String.◌∷◌ d s) =
    let rest = matches true p (String.◌∷◌ d s) in
    let after = matches false p s in
    if not escaped && code c == b'*'
    then true
    else if not escaped && code c == b'\\'
    then rest
    else if code c == code d
    then after
    else false

star : (s : String) → matches false "*" s ≡ true
star String.[] = refl
star (String.◌∷◌ c s) = refl

glob : Glob
glob = record {
  matches = matches false;
  star = star;
  escaped = λ c p d s. refl;
  escaped_end = λ c p. refl;
  literal = λ c p d s h. ground (arith, h);
  literal_end = λ c p h. ground (arith, h);
}

abbrev pub Entries : Type 0
Entries = Map Entry

abbrev pub value : Option Entry → Option String
value found = elim found [ none ↦ none | some (text, px) ↦ some text ]

abbrev pub set : String → String → Option ℕ → Bool → Entries → Result (Option String) × Entries
set k text px true d =
    if is_some (Maps.get k d) then (ok (some "OK"), Maps.insert k (text, px) d) else (ok none, d)
set k text px false d =
    if is_some (Maps.get k d) then (ok none, d) else (ok (some "OK"), Maps.insert k (text, px) d)

abbrev pub keys_of : Entries → List String
keys_of [] = []
keys_of ((k, v) ∷ d) = k ∷ keys_of d

abbrev pub remove_all : List String → Entries → Entries
remove_all [] d = d
remove_all (k ∷ keys) d = Maps.remove k (remove_all keys d)

abbrev pub server : Server Entries
server = record {
  get = λ k d. ok (value (Maps.get k d));
  del = λ k d. (ok 1, Maps.remove k d);
  set = set;
  eval = λ script d. (ok (script d).0, (script d).1);
  scan = λ cursor pattern hint d. ok (0, keys_of d);
  unlink = λ keys d. (ok 1, remove_all keys d);
  exists_in = λ k d. if is_some (Maps.get k d) then 1 else 0;
  set_in = λ k text px d. Maps.insert k (text, px) d;
  del_in = Maps.remove;
}

sets_only :
    (k text : String) (px : Option ℕ) (xx : Bool) (j : String) (d : Entries)
    → str_eq k j ≡ false
    → Maps.get j (set k text px xx d).1 ≡ Maps.get j d
sets_only k text px true j d h = ground (arith, h, Maps.get-insert k j (text, px) d)
sets_only k text px false j d h = ground (arith, h, Maps.get-insert k j (text, px) d)

sets :
    (k text : String) (px : Option ℕ) (xx : Bool) (answer : String) (d : Entries)
    → (set k text px xx d).0 ≡ ok (some answer)
    → (is_some (Maps.get k d) ≡ xx) × (Maps.get k (set k text px xx d).1 ≡ some (text, px))
sets k text px true answer d h =
    (ground (arith, h), ground (arith, h, Maps.get-insert k k (text, px) d, str_eq_refl k))
sets k text px false answer d h =
    (ground (arith, h), ground (arith, h, Maps.get-insert k k (text, px) d, str_eq_refl k))

value-found :
    (k : String) (d : Entries) (found : Option String)
    → server.get k d ≡ ok found
    → found ≡ value (Maps.get k d)
value-found k d found h = cc

unwrapped : (m n : ℕ) → ok m ≡ ok n → m ≡ n
unwrapped m n h = cc

abbrev answered : Result (ℕ × List String) → ℕ × List String
answered (ok x) = x
answered (err e) = (0, [])

scanned :
    (next : ℕ) (keys : List String) (d : Entries)
    → server.scan 0 "*" 256 d ≡ ok (next, keys)
    → (0 ≡ next) × (keys_of d ≡ keys)
scanned next keys d h = (ap (λ r. (answered r).0) h, ap (λ r. (answered r).1) h)

pub server-IsServer : IsServer server
server-IsServer = record {
  entry = Maps.get;
  gets = λ k d found h. value-found k d found h;
  dels_only = λ k j d h. ground (arith, h, Maps.get-remove k j d);
  dels = λ k n d h. ground (arith, Maps.get-remove k k d, str_eq_refl k);
  sets_only = sets_only;
  sets = sets;
  evals = λ script n d h. ap (λ m. (m, (script d).1)) (unwrapped (script d).0 n h);
  exists_tells = λ k d. refl;
  set_puts = λ k text px j d. ground (arith, Maps.get-insert k j (text, px) d);
  del_drops = λ k j d. ground (arith, Maps.get-remove k j d);
}

get-remove_all :
    (keys : List String) (k : String) (d : Entries)
    → Maps.get k (remove_all keys d) ≡ (if holds k keys then none else Maps.get k d)
get-remove_all [] k d = refl
get-remove_all (j ∷ keys) k d =
    ground (arith, Maps.get-remove j k (remove_all keys d), get-remove_all keys k d)

holds-keys_of :
    (k : String) (d : Entries) → is_some (Maps.get k d) ≡ true → holds k (keys_of d) ≡ true
unfolding Maps.get
holds-keys_of k [] h = ground (arith, h)
holds-keys_of k ((j, v) ∷ d) h = ground (arith, h, holds-keys_of k d)

pub server-IsScanned : IsScanned server server-IsServer
unfolding server-IsServer
server-IsScanned = record {
  glob = glob;
  unlinks_only = λ keys k d h. ground (arith, h, get-remove_all keys k d);
  unlinks = λ keys n k d h. get-remove_all keys k d;
  ahead = λ cursor k. true;
  starts = λ k. refl;
  returns = λ cursor pattern hint d next keys k h m there a.
      inl (ap (holds k) (sym (scanned next keys d h).1) ∙ holds-keys_of k d there);
}

server-ScanEnds : ScanEnds server
server-ScanEnds = record {
  calls = λ cursor. 0;
  goes_on = λ cursor pattern hint d next keys h more.
      absurd (ground (arith, (scanned next keys d h).0, more));
}

-- A store with one session, beside a key of another program.
abbrev entries : Entries
entries = ("p/a", ("json", none)) ∷ ("q", ("text", none)) ∷ []

abbrev left_ : Entries
left_ = ("q", ("text", none)) ∷ []

abbrev to_string : Owned → Result String
to_string o = ok "json"

abbrev alone : Schedule
alone = record { before_lock = []; before_finish = []; after_finish = [] }

ttl_millis-bounds_example :
    ((millis : ℕ) × (ttl_millis 1000001 ≡ ok millis)
      × (1 ≤ millis)
      × (millis < u64_mod)
      × (1000001 ≤ millis * 1000000)
      × (millis * 1000000 ≤ 1000001 + 1000000))
    ⊎ ((ttl_millis 1000001 ≡ err out_of_range) × (u64_mod * 1000000 ≤ 1000001 + 999999))
ttl_millis-bounds_example = Ttl.ttl_millis-bounds 1000001

prefix_pattern-matches_example :
    glob.matches (prefix_pattern "a?[1]*/") "a?[1]*/b" ≡ starts_with "a?[1]*/" "a?[1]*/b"
prefix_pattern-matches_example = Pattern.prefix_pattern-matches glob "a?[1]*/" "a?[1]*/b"

count-clear_store-end_example :
    (is_some (count server "p/" 1 entries) ≡ true)
    × (is_some (clear_store server "p/" 1 entries) ≡ true)
unfolding server-ScanEnds
count-clear_store-end_example =
    Ends.count-clear_store-end server server-ScanEnds "p/" 1 entries (omega arith)

abbrev done : Result (Unit {0})
done = ok tt

clear_store-only-prefix_example :
    ((done ≡ ok tt)
      × (Maps.get "q" left_ ≡ (if starts_with "p/" "q" then none else Maps.get "q" entries)))
    ⊎ ((e : Error) × (done ≡ err e)
        × ((starts_with "p/" "q" ≡ true) ⊎ (Maps.get "q" left_ ≡ Maps.get "q" entries)))
unfolding program server-IsServer server-IsScanned Scan.clear_store
clear_store-only-prefix_example =
    Clears.clear_store-only-prefix server server-IsServer server-IsScanned "p/" "q" 1 entries left_
      done refl

store_session_puts_or_expires_example :
    (origin : Option String) × ((persistence_attempt (family none) (newcomer id44)).0 ≡ ok origin)
    × ((json : String) × (to_string
            (snapshot (claimed (family none) (newcomer id44)) (newcomer id44))
          ≡ ok json)
        × (let after =
              (store_session server "p/" to_string alone 50
                (newcomer id44)
                (family none)
                entries).rows in
            Expired server server-IsServer "p/" 50
              (newcomer id44)
              origin
              entries
              (some "cookie")
              after
            ⊎ Live server server-IsServer "p/" 50
                (newcomer id44)
                origin
                json
                entries
                (some "cookie")
                after))
unfolding program Redis.store_session
store_session_puts_or_expires_example =
    Saves.store_session_puts_or_expires server server-IsServer "p/" alone 50 (newcomer id44)
      to_string (family none) entries (some "cookie") refl

prefix_pattern_test : prefix_pattern "a*[" ≡ "a\\*\\[*"
unfolding Redis.prefix_pattern
prefix_pattern_test = refl

chunks_test : Scan.chunks 2 ("a" ∷ "b" ∷ "c" ∷ []) ≡ ("a" ∷ "b" ∷ []) ∷ ("c" ∷ []) ∷ []
unfolding Scan.chunks
chunks_test = refl

count_test : count server "p/" 1 entries ≡ some (ok 1)
unfolding Scan.count
count_test = refl

-- A time to live of 0 is not one that Redis takes.
ttl_millis_test : (ttl_millis 0 ≡ ok 1) × (ttl_millis 1000000 ≡ ok 1) × (ttl_millis 1000001 ≡ ok 2)
unfolding Redis.ttl_millis
ttl_millis_test = (refl, refl, refl)
