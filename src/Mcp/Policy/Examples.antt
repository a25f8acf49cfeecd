-- ===== src/Mcp/Policy/Examples.antt =====
-- Patterns and policies on concrete requests.
use penguin_redis.Prelude.{
  ℕ, ◌≡◌, ◌≢◌, ◌==◌, arith, refl, true, false, some, List, [], ◌∷◌, ◌++◌, ok, err, codes, is_some,
}
use penguin_redis.Core.Request.{CommandRequest, user, read, write, default_budget}
use penguin_redis.Mcp.Glob.{glob_bytes}
use penguin_redis.Mcp.Glob.Rounds.{glob_bytes_total, glob_bytes-escaped_star}
use penguin_redis.Mcp.Policy.{
  PolicyRule, not_read_only, no_keys, key_not_listed, result_too_large, rate_limited, may_authorise,
}
use penguin_redis.Mcp.Policy.Grants.{Granted, PlainPattern, may_authorise-Granted}

glob-star : glob_bytes (codes "user:*:name") (codes "user:1:2:name") ≡ some true
unfolding glob_bytes
glob-star = refl

glob-question : glob_bytes (codes "a?c") (codes "ac") ≡ some false
unfolding glob_bytes
glob-question = refl

glob-class : glob_bytes (codes "k[^a-c]z") (codes "kdz") ≡ some true
unfolding glob_bytes
glob-class = refl

glob-range : glob_bytes (codes "k[a-c]z") (codes "kdz") ≡ some false
unfolding glob_bytes
glob-range = refl

glob-escape : glob_bytes (codes "a" ++ b'\\' ∷ codes "*") (codes "a*") ≡ some true
unfolding glob_bytes
glob-escape = refl

-- A class that does not end matches nothing, though a comment has `[` stand for itself there.
glob-unterminated : glob_bytes (codes "[a") (codes "[a") ≡ some false
unfolding glob_bytes
glob-unterminated = refl

abbrev rule : PolicyRule
rule = record {
  id = codes "reads";
  version = 1;
  key_patterns = codes "user:*" ∷ [];
  max_result_bytes = 100;
  max_calls_per_hour = 2;
}

abbrev fetch : CommandRequest
fetch = record {
  args = codes "GET" ∷ codes "user:1" ∷ [];
  origin = user;
  effects = read;
  budget = default_budget;
}

abbrev same_text : List ℕ → List ℕ
same_text s = s

fetch-authorised : may_authorise same_text rule fetch (codes "user:1" ∷ []) 10 1 ≡ ok tt
unfolding may_authorise
fetch-authorised = refl

fetch-rate_limited :
    may_authorise same_text rule fetch (codes "user:1" ∷ []) 10 2 ≡ err (rate_limited 2 2)
unfolding may_authorise
fetch-rate_limited = refl

fetch-too_large :
    may_authorise same_text rule fetch (codes "user:1" ∷ []) 101 0 ≡ err (result_too_large 101 100)
unfolding may_authorise
fetch-too_large = refl

fetch-no_keys : may_authorise same_text rule fetch [] 10 1 ≡ err no_keys
unfolding may_authorise
fetch-no_keys = refl

fetch-not_listed :
    may_authorise same_text rule fetch (codes "user:1" ∷ codes "card:1" ∷ []) 10 1
    ≡ err (key_not_listed (codes "card:1"))
unfolding may_authorise
fetch-not_listed = refl

write-refused :
    may_authorise same_text rule (record fetch { effects = write }) (codes "user:1" ∷ []) 10 1
    ≡ err (not_read_only (codes "a write"))
unfolding may_authorise
write-refused = refl

plain_byte : (c : ℕ) → c == b'[' ≡ false → c == b'\\' ≡ false → (c ≢ b'[') × (c ≢ b'\\')
plain_byte c h k = (λ e. ground arith, λ e. ground arith)

rule-plain : PlainPattern (codes "user:*")
rule-plain = (
  plain_byte b'u' refl refl,
  (
    plain_byte b's' refl refl,
    (
      plain_byte b'e' refl refl,
      (plain_byte b'r' refl refl, (plain_byte b':' refl refl, (plain_byte b'*' refl refl, tt))),
    ),
  ),
)

may_authorise-Granted_example : Granted same_text rule fetch (codes "user:1" ∷ []) 10 1
may_authorise-Granted_example =
    may_authorise-Granted same_text rule fetch (codes "user:1" ∷ []) 10 1 (rule-plain, tt)
      fetch-authorised

glob_bytes_total_example : is_some (glob_bytes (codes "a*b*c") (codes "aabbcc")) ≡ true
glob_bytes_total_example = glob_bytes_total (codes "a*b*c") (codes "aabbcc")

glob_bytes-escaped_star_example :
    glob_bytes (b'\\' ∷ b'*' ∷ []) (b'\\' ∷ codes "secret") ≡ some true
glob_bytes-escaped_star_example = glob_bytes-escaped_star (codes "secret")
