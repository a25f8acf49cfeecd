-- ===== src/Repl/Redaction.antt =====
-- crates/pr-repl/src/history.rs: what of a command is kept.
--
-- `blake3` is the hash in hexadecimal, and `upper_text` the standard library's lossy UTF-8 decoding
-- with `to_uppercase` behind it. A `String` is its bytes.
pub mod Hidden
mod Examples
use penguin_redis.Prelude.{
  ℕ, ◌+◌, ◌-◌, Bool, true, false, ◌&&◌, ◌||◌, List, [], ◌∷◌, ◌++◌, ◌==◌, leb, if◌then◌else◌, map,
  take, codes, bytes_eq, to_ascii_uppercase,
}
use penguin_redis.Repl.Quoting.{quote}

-- `RedactionLevel`; the first is `None`.
pub data RedactionLevel : Type 0 where
  no_redaction hash_names all_arguments : RedactionLevel

-- Whether a text is one of some others.
unfoldable pub is_one_of : List (List ℕ) → List ℕ → Bool
unfolding bytes_eq
is_one_of [] s = false
is_one_of (t ∷ ts) s = bytes_eq s t || is_one_of ts s

-- `to_ascii_lowercase`.
unfoldable pub lower_byte : ℕ → ℕ
lower_byte c = if leb b'A' c && leb c b'Z' then c + 32 else c

unfoldable pub for_environment : List ℕ → RedactionLevel
unfolding is_one_of lower_byte
for_environment env =
    let name = map lower_byte env in
    if is_one_of (codes "development" ∷ codes "local" ∷ codes "dev" ∷ []) name
    then no_redaction
    else if is_one_of (codes "staging" ∷ codes "test" ∷ []) name
    then hash_names
    else all_arguments

unfoldable pub is_secret_bearing : List ℕ → Bool
unfolding is_one_of
is_secret_bearing =
    is_one_of (codes "AUTH" ∷ codes "HELLO" ∷ codes "MIGRATE" ∷ codes "CONFIG" ∷ codes "ACL" ∷ [])

abbrev pub keywords : List (List ℕ)
keywords =
    codes "NX"
    ∷ codes "XX"
    ∷ codes "GET"
    ∷ codes "EX"
    ∷ codes "PX"
    ∷ codes "EXAT"
    ∷ codes "PXAT"
    ∷ codes "KEEPTTL"
    ∷ codes "WITHSCORES"
    ∷ codes "REV"
    ∷ codes "BYSCORE"
    ∷ codes "BYLEX"
    ∷ codes "LIMIT"
    ∷ codes "COUNT"
    ∷ codes "MATCH"
    ∷ codes "NOVALUES"
    ∷ codes "STREAMS"
    ∷ codes "ASC"
    ∷ codes "DESC"
    ∷ codes "ALPHA"
    ∷ []

unfoldable pub is_keyword : List ℕ → Bool
unfolding is_one_of
is_keyword arg = is_one_of keywords (to_ascii_uppercase arg)

-- `str::starts_with`.
unfoldable pub starts_with : List ℕ → List ℕ → Bool
starts_with s [] = true
starts_with [] (c ∷ p) = false
starts_with (d ∷ s) (c ∷ p) = d == c && starts_with s p

unfoldable pub is_placeholder : List ℕ → Bool
unfolding bytes_eq starts_with
is_placeholder p = bytes_eq p (codes "[redacted]") || starts_with p (codes "[hashed:")

unfoldable pub has_placeholder : List (List ℕ) → Bool
unfolding is_placeholder
has_placeholder [] = false
has_placeholder (p ∷ parts) = is_placeholder p || has_placeholder parts

-- The level that a command of this name has.
unfoldable pub effective : List ℕ → RedactionLevel → RedactionLevel
unfolding is_secret_bearing
effective name level = if is_secret_bearing name then all_arguments else level

module _ (blake3 upper_text : List ℕ → List ℕ) where
  unfoldable pub short_hash : List ℕ → List ℕ
  short_hash b = codes "[hashed:" ++ take 8 (blake3 b) ++ codes "]"

  -- An argument that is no keyword.
  unfoldable pub redact_value : RedactionLevel → List ℕ → List ℕ
  unfolding short_hash quote
  redact_value no_redaction arg = quote arg
  redact_value hash_names arg = short_hash arg
  redact_value all_arguments arg = codes "[redacted]"

  unfoldable pub redact_args : RedactionLevel → List (List ℕ) → List (List ℕ)
  unfolding redact_value is_keyword
  redact_args level [] = []
  redact_args level (arg ∷ argv) =
      (if is_keyword arg then upper_text arg else redact_value level arg) ∷ redact_args level argv

  unfoldable pub redact : List (List ℕ) → RedactionLevel → List (List ℕ)
  unfolding redact_args effective
  redact [] level = []
  redact (first ∷ argv) level =
      upper_text first ∷ redact_args (effective (upper_text first) level) argv
