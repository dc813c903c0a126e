-- ===== src/Sql/Sqlite/Names.antt =====
-- src/sqlx_store.rs: `index_target` of the SQLite store, which finds the dot that separates a schema
-- from a table, outside of quoted identifiers.
use Prim.Native.Char.{Char, code}
use saysion.Prelude.{
  ℕ, String, Bool, false, not, ◌&&◌, ◌||◌, Option, none, some, [], ◌∷◌, ◌==◌, leb, concat,
  if◌then◌else◌,
}
use saysion.Sql.Store.{expiry_index_name}

-- `quote`, and whether the next character is the second of a doubled delimiter, which the loop
-- takes from its iterator at once.
pub data Scan : Type 0 where
  plain : Scan
  quoted paired : ℕ → Scan

abbrev pub is_quote : ℕ → Bool
is_quote c = c == b'"' || (c == b'\'' || c == b'`')

-- `peek`
unfoldable pub comes_next : ℕ → String → Bool
comes_next c String.[] = false
comes_next c (String.◌∷◌ d rest) = code d == c

-- The state after a character, which is not a dot outside of quotes.
unfoldable pub advance : Scan → ℕ → String → Scan
unfolding comes_next
advance plain c rest = if is_quote c then quoted c else if c == b'[' then quoted b']' else plain
advance (quoted q) c rest =
    if c == q then (if not (q == b']') && comes_next q rest then paired q else plain) else quoted q
advance (paired q) c rest = quoted q

unfoldable pub is_separator : Scan → ℕ → Bool
is_separator plain c = c == b'.'
is_separator (quoted q) c = false
is_separator (paired q) c = false

abbrev pub after : Char → Option (String × String) → Option (String × String)
after c none = none
after c (some (schema, table)) = some (String.◌∷◌ c schema, table)

-- The loop: the parts before and after the first dot outside of quotes.
unfoldable pub split_qualified : Scan → String → Option (String × String)
unfolding advance is_separator
split_qualified state String.[] = none
split_qualified state (String.◌∷◌ c rest) =
    let found = split_qualified (advance state (code c) rest) rest in
    if is_separator state (code c) then some (String.[], rest) else after c found

-- `char::is_whitespace`
abbrev pub is_whitespace : ℕ → Bool
is_whitespace c =
    (leb 9 c && leb c 13)
    || (c == 32
        || (c == 133
            || (c == 160
                || (c == 5760
                    || ((leb 8192 c && leb c 8202)
                        || (c == 8232
                            || (c == 8233 || (c == 8239 || (c == 8287 || c == 12288)))))))))

unfoldable pub trim_start : String → String
trim_start String.[] = String.[]
trim_start (String.◌∷◌ c rest) =
    let trimmed = trim_start rest in if is_whitespace (code c) then trimmed else String.◌∷◌ c rest

abbrev pub join_end : Char → String → String
join_end c String.[] = if is_whitespace (code c) then String.[] else String.◌∷◌ c String.[]
join_end c (String.◌∷◌ d rest) = String.◌∷◌ c (String.◌∷◌ d rest)

unfoldable pub trim_end : String → String
trim_end String.[] = String.[]
trim_end (String.◌∷◌ c rest) = join_end c (trim_end rest)

-- `str::trim`
unfoldable pub trim : String → String
unfolding trim_start trim_end
trim s = trim_end (trim_start s)

unfoldable pub index_target : (String → String) → String → String × String
unfolding split_qualified trim expiry_index_name
index_target hash_hex table = elim (split_qualified plain table) [
  | none ↦ (expiry_index_name hash_hex table, table)
  | some (schema, name) ↦
      (concat (trim schema ∷ "." ∷ expiry_index_name hash_hex table ∷ []), trim name)
]
