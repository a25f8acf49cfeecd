-- ===== src/Repl/History/Examples.antt =====
-- The history on concrete commands.
use penguin_redis.Prelude.{
  err, ℕ, arith, ok, zero, suc, ◌∙◌, ◌≡◌, refl, ap, Option, some, List, [], ◌∷◌, codes,
  to_ascii_uppercase, All, bytes_eq, true, map, upper,
}
use penguin_redis.Protocol.Value.{pos}
use penguin_redis.Repl.Redaction.{
  redact, effective, is_secret_bearing, is_keyword, no_redaction, all_arguments,
}
use penguin_redis.Repl.History.{
  search, init, schema_too_new, join_parts, Scope, Entry, open_in_memory, recent,
}
use penguin_redis.Repl.Redaction.Hidden.{BearsSecrets-is_secret_bearing}
use penguin_redis.Repl.History.Recall.{split_args-redact}
use penguin_redis.Repl.Quoting.{Token, quote, split_args}
use penguin_redis.Repl.History.Origins.{
  Call, recorded, pruned, perform_all, FromCall, recent-FromCall,
}

-- A list of texts as one: each byte one higher, and a 0 behind each text.
abbrev encode_text : List ℕ → List ℕ → List ℕ
encode_text [] s = 0 ∷ s
encode_text (c ∷ t) s = suc c ∷ encode_text t s

abbrev encode : List (List ℕ) → List ℕ
encode [] = []
encode (t ∷ ts) = encode_text t (encode ts)

abbrev cons_head : ℕ → List (List ℕ) → List (List ℕ)
cons_head c [] = (c ∷ []) ∷ []
cons_head c (t ∷ ts) = (c ∷ t) ∷ ts

abbrev split : List ℕ → List (List ℕ)
split [] = []
split (zero ∷ s) = [] ∷ split s
split (suc c ∷ s) = cons_head c (split s)

abbrev decode : List ℕ → Option (List (List ℕ))
decode s = some (split s)

split-encode_text : (t s : List ℕ) → split (encode_text t s) ≡ t ∷ split s
split-encode_text [] s = refl
split-encode_text (c ∷ t) s = ap (cons_head c) (split-encode_text t s)

split-encode : (ts : List (List ℕ)) → split (encode ts) ≡ ts
split-encode [] = refl
split-encode (t ∷ ts) = split-encode_text t (encode ts) ∙ ap (λ r. t ∷ r) (split-encode ts)

abbrev dev : Scope
dev = record { profile_uuid = codes "dev"; identity_epoch = 1; db = 0 }

abbrev prod : Scope
prod = record { profile_uuid = codes "prod"; identity_epoch = 1; db = 0 }

-- Two commands in one scope, one in another, and the oldest is pruned.
abbrev calls : List Call
calls =
    recorded dev (codes "get" ∷ codes "a" ∷ []) no_redaction (pos 1)
    ∷ recorded prod (codes "get" ∷ codes "b" ∷ []) all_arguments (pos 2)
    ∷ recorded dev (codes "ping" ∷ []) no_redaction (pos 3)
    ∷ pruned (pos 2) 5
    ∷ []

-- A hash of nothing but zeros.
abbrev zeros : List ℕ → List ℕ
zeros b = codes "00000000"

abbrev shown : Scope → List Entry
shown s = recent decode (perform_all zeros to_ascii_uppercase encode calls open_in_memory) s 10

dev-shown : shown dev ≡ record { id = 3; parts = codes "PING" ∷ []; at_ms = pos 3 } ∷ []
unfolding perform_all recent upper
dev-shown = refl

prod-shown :
    shown prod
    ≡ record { id = 2; parts = codes "GET" ∷ codes "[redacted]" ∷ []; at_ms = pos 2 } ∷ []
unfolding perform_all recent upper
prod-shown = refl

recent-FromCall_example : All (FromCall zeros to_ascii_uppercase encode calls prod) (shown prod)
recent-FromCall_example =
    recent-FromCall zeros to_ascii_uppercase encode decode (λ ps. ap some (split-encode ps)) calls
      prod 10

set-open : is_secret_bearing (codes "SET") ≡ true → ⊥
unfolding is_secret_bearing bytes_eq
set-open h = absurd cc

-- A password among the values, kept and read back.
split_args-redact_example :
    (ts : List Token) × (split_args (
        join_parts (
          redact zeros to_ascii_uppercase
            (codes "set" ∷ codes "k" ∷ codes "p w" ∷ [])
            no_redaction))
      ≡ some (ok ts))
    × (map (λ t. t.bytes) ts ≡ codes "SET" ∷ codes "k" ∷ codes "p w" ∷ [])
unfolding effective quote is_keyword upper
split_args-redact_example =
    split_args-redact zeros to_ascii_uppercase (codes "set") (codes "k" ∷ codes "p w" ∷ [])
      (λ s. set-open (BearsSecrets-is_secret_bearing _ s)) refl (refl, (refl, tt))
      (
        (omega arith, (omega arith, (omega arith, tt))),
        ((omega arith, tt), ((omega arith, (omega arith, (omega arith, tt))), tt)),
      )

search-found :
    search decode to_ascii_uppercase
      (perform_all zeros to_ascii_uppercase encode calls open_in_memory)
      dev
      (codes "in")
      3
    ≡ record { id = 3; parts = codes "PING" ∷ []; at_ms = pos 3 } ∷ []
unfolding perform_all search upper
search-found = refl

init-newer : init (pos 2) ≡ err (schema_too_new (pos 2))
unfolding init
init-newer = refl

init-fresh : init (pos 0) ≡ ok (pos 1)
unfolding init
init-fresh = refl
