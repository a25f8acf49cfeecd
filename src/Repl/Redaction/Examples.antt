-- ===== src/Repl/Redaction/Examples.antt =====
-- Redaction on concrete commands.
use penguin_redis.Prelude.{
  ℕ, ◌≡◌, refl, inl, true, List, [], ◌∷◌, ◌++◌, codes, to_ascii_uppercase, upper,
}
use penguin_redis.Repl.Redaction.{
  RedactionLevel, no_redaction, hash_names, all_arguments, for_environment, effective, redact,
  has_placeholder, is_keyword,
}
use penguin_redis.Repl.Redaction.Hidden.{
  auth, visible, has_value, hides, redact-hidden, redact-has_placeholder,
}

-- A hash of eight characters at least.
abbrev tag_hash : List ℕ → List ℕ
tag_hash b = codes "0a1b2c3d" ++ b

abbrev redacted : List (List ℕ) → RedactionLevel → List (List ℕ)
redacted = redact tag_hash to_ascii_uppercase

set-hashed :
    redacted (codes "set" ∷ codes "k" ∷ codes "v" ∷ codes "nx" ∷ []) hash_names
    ≡ codes "SET" ∷ codes "[hashed:0a1b2c3d]" ∷ codes "[hashed:0a1b2c3d]" ∷ codes "NX" ∷ []
unfolding redact upper
set-hashed = refl

-- A value that is spelled like a keyword is kept at every level.
set-keyword :
    redacted (codes "set" ∷ codes "k" ∷ codes "limit" ∷ []) all_arguments
    ≡ codes "SET" ∷ codes "[redacted]" ∷ codes "LIMIT" ∷ []
unfolding redact upper
set-keyword = refl

-- So is a password.
auth-keyword :
    redacted (codes "auth" ∷ codes "alpha" ∷ []) no_redaction ≡ codes "AUTH" ∷ codes "ALPHA" ∷ []
unfolding redact upper
auth-keyword = refl

unknown_environment : for_environment (codes "QA") ≡ all_arguments
unfolding for_environment
unknown_environment = refl

redact-hidden_example :
    redacted (codes "auth" ∷ codes "me" ∷ codes "secret" ∷ []) no_redaction
    ≡ redacted (codes "auth" ∷ codes "you" ∷ codes "other" ∷ []) no_redaction
unfolding effective visible upper is_keyword
redact-hidden_example =
    redact-hidden tag_hash to_ascii_uppercase (codes "auth") (codes "me" ∷ codes "secret" ∷ [])
      (codes "you" ∷ codes "other" ∷ []) no_redaction (inl auth) refl

redact-has_placeholder_example :
    has_placeholder (redacted (codes "get" ∷ codes "k" ∷ []) hash_names) ≡ true
unfolding effective has_value hides upper is_keyword
redact-has_placeholder_example =
    redact-has_placeholder tag_hash to_ascii_uppercase (codes "get") (codes "k" ∷ []) hash_names
      refl refl
