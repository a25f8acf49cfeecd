-- ===== src/Repl/History.antt =====
-- crates/pr-repl/src/history.rs: the commands that are kept, and those that are shown again.
--
-- The table is the list of its rows, the oldest first, and each SQL statement is what it does to
-- that list; SQLite's own errors are not modelled. `AUTOINCREMENT` gives no id twice, so the order
-- of the ids is that of the list. `encode` and `decode` are `serde_json`'s, for a list of strings;
-- `blake3` and `upper_text` are those of the redaction.
pub mod Origins
pub mod Recall
mod Examples
use penguin_redis.Prelude.{
  ℕ, zero, suc, ◌+◌, ◌-◌, ◌^◌, min, Bool, true, false, not, ◌&&◌, ◌||◌, Result, ok, err, Option,
  none, some, List, [], ◌∷◌, ◌++◌, ltb, ◌==◌, if◌then◌else◌, length, map, take, drop, bytes_eq,
}
use penguin_redis.Protocol.Value.{ℤ, pos, negsuc}
use penguin_redis.Repl.Redaction.{RedactionLevel, redact, has_placeholder, starts_with}

pub record Scope : Type 0 where
  pub profile_uuid : List ℕ
  pub identity_epoch : ℕ
  pub db : ℕ

pub record Entry : Type 0 where
  pub id : ℕ
  pub parts : List (List ℕ)
  pub at_ms : ℤ

pub record Row : Type 0 where
  pub id : ℕ
  pub profile_uuid : List ℕ
  pub identity_epoch : ℕ
  pub db : ℕ
  pub parts : List ℕ
  pub at_ms : ℤ

pub record History : Type 0 where
  pub rows : List Row
  pub last_id : ℕ

abbrev pub schema_version : ℤ
schema_version = pos 1

pub data HistoryError : Type 0 where
  schema_too_new : ℤ → HistoryError

abbrev pub open_in_memory : History
open_in_memory = record { rows = []; last_id = 0 }

-- Each of some texts behind a space.
unfoldable pub behind_spaces : List (List ℕ) → List ℕ
behind_spaces [] = []
behind_spaces (p ∷ parts) = 32 ∷ (p ++ behind_spaces parts)

-- `parts.join(" ")`.
unfoldable pub join_parts : List (List ℕ) → List ℕ
unfolding behind_spaces
join_parts [] = []
join_parts (p ∷ parts) = p ++ behind_spaces parts

unfoldable pub line : Entry → List ℕ
unfolding join_parts
line e = join_parts e.parts

unfoldable pub is_submittable : Entry → Bool
unfolding has_placeholder
is_submittable e = not (has_placeholder e.parts)

-- `i64::try_from(n).unwrap_or(i64::MAX)`.
unfoldable pub as_i64 : ℕ → ℕ
as_i64 n = min n (2 ^ 63 - 1)

unfoldable pub is_before : ℤ → ℤ → Bool
is_before (pos a) (pos b) = ltb a b
is_before (pos a) (negsuc b) = false
is_before (negsuc a) (pos b) = true
is_before (negsuc a) (negsuc b) = ltb b a

-- `init`: the version that the file has behind it, from the one that was found.
unfoldable pub init : ℤ → Result {0, 0} HistoryError ℤ
unfolding is_before
init found =
    if is_before schema_version found
    then err (schema_too_new found)
    else if is_before found (pos 1)
    then ok schema_version
    else ok found

-- The rows of which a test holds.
unfoldable pub where_rows : (Row → Bool) → List Row → List Row
where_rows f [] = []
where_rows f (r ∷ rs) = let rest = where_rows f rs in if f r then r ∷ rest else rest

unfoldable pub newest_first : List Row → List Row
newest_first [] = []
newest_first (r ∷ rs) = newest_first rs ++ r ∷ []

unfoldable pub in_scope : Scope → Row → Bool
unfolding as_i64 bytes_eq
in_scope s r =
    bytes_eq r.profile_uuid s.profile_uuid
    && r.identity_epoch == as_i64 s.identity_epoch
    && r.db == s.db

unfoldable pub count : History → ℕ
count h = length h.rows

-- How many rows are gone, and the table without them.
unfoldable pub deleted : History → List Row → ℕ × History
deleted h rs = (length h.rows - length rs, record h { rows = rs })

unfoldable pub clear : History → Option (List ℕ) → ℕ × History
unfolding deleted where_rows bytes_eq
clear h none = deleted h []
clear h (some p) = deleted h (where_rows (λ r. not (bytes_eq r.profile_uuid p)) h.rows)

unfoldable pub prune : History → ℤ → ℕ → ℕ × History
unfolding deleted where_rows is_before as_i64
prune h older_than_ms keep_max =
    let by_age = deleted h (where_rows (λ r. not (is_before r.at_ms older_than_ms)) h.rows) in
    let rs = by_age.1.rows in
    let by_count = deleted by_age.1 (drop (length rs - as_i64 keep_max) rs) in
    (by_age.0 + by_count.0, by_count.1)

-- `unwrap_or_default`.
unfoldable pub parts_of : Option (List (List ℕ)) → List (List ℕ)
parts_of none = []
parts_of (some ps) = ps

module _ (encode : List (List ℕ) → List ℕ) where
  unfoldable pub insert_row : History → Scope → List (List ℕ) → ℤ → ℕ × History
  unfolding as_i64
  insert_row h s [] at_ms = (0, h)
  insert_row h s (p ∷ ps) at_ms = (
    suc h.last_id,
    record {
      rows =
          h.rows
          ++ record {
            id = suc h.last_id;
            profile_uuid = s.profile_uuid;
            identity_epoch = as_i64 s.identity_epoch;
            db = s.db;
            parts = encode (p ∷ ps);
            at_ms = at_ms;
          }
            ∷ [];
      last_id = suc h.last_id;
    },
  )

module _ (blake3 upper_text : List ℕ → List ℕ) (encode : List (List ℕ) → List ℕ) where
  -- `record`: the id of the new row, and the table.
  unfoldable pub record_entry : History → Scope → List (List ℕ) → RedactionLevel → ℤ → ℕ × History
  unfolding insert_row redact
  record_entry h s argv level at_ms =
      insert_row encode h s (redact blake3 upper_text argv level) at_ms

module _ (decode : List ℕ → Option (List (List ℕ))) where
  unfoldable pub entry_of : Row → Entry
  unfolding parts_of
  entry_of r = record { id = r.id; parts = parts_of (decode r.parts); at_ms = r.at_ms }

  unfoldable pub recent : History → Scope → ℕ → List Entry
  unfolding entry_of newest_first where_rows in_scope as_i64
  recent h s limit =
      map entry_of (take (as_i64 limit) (newest_first (where_rows (in_scope s) h.rows)))

-- `str::contains`.
unfoldable pub contains : List ℕ → List ℕ → Bool
unfolding starts_with
contains [] needle = starts_with [] needle
contains (c ∷ s) needle = starts_with (c ∷ s) needle || contains s needle

-- `filter` on entries.
unfoldable pub filter_entries : (Entry → Bool) → List Entry → List Entry
filter_entries f [] = []
filter_entries f (e ∷ es) = let rest = filter_entries f es in if f e then e ∷ rest else rest

module _ (decode : List ℕ → Option (List (List ℕ))) (upper_text : List ℕ → List ℕ) where
  unfoldable pub search : History → Scope → List ℕ → ℕ → List Entry
  unfolding recent line contains filter_entries
  search h s needle limit = take limit (
      filter_entries (λ e. contains (upper_text (line e)) (upper_text needle))
        (recent decode h s 10000))
