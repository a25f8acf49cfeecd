-- ===== src/Repl/Quoting/Examples.antt =====
-- Lines that are split, and the witnesses of Quoting's results.
use penguin_redis.Prelude.{ℕ, ◌≡◌, refl, List, [], ◌∷◌, arith, codes, map, length, Result, some}
use penguin_redis.Prelude.Result.{ok, err}
use penguin_redis.Repl.Quoting.{Token, TokenizeError, unbalanced_quotes, split_args}
use penguin_redis.Repl.Quoting.Spans.{split_args-Ordered, split_args_total}
use penguin_redis.Repl.Quoting.Total.{Ordered}
use penguin_redis.Repl.Quoting.RoundTrip.{join_quoted, split_args-join_quoted}

abbrev line : List ℕ
line = codes "GET \"a b\""

abbrev line_tokens : List Token
line_tokens =
    record { bytes = codes "GET"; start = 0; stop = 3 }
    ∷ record { bytes = codes "a b"; start = 4; stop = 9 }
    ∷ []

line_split : split_args line ≡ some (ok line_tokens)
unfolding split_args
line_split = refl

open_quote : split_args (codes "SET k \"v") ≡ some (err unbalanced_quotes)
unfolding split_args
open_quote = refl

split_args_total_example : (r : Result TokenizeError (List Token)) × (split_args line ≡ some r)
split_args_total_example = split_args_total line

split_args-Ordered_example : Ordered 0 (length line) line_tokens
split_args-Ordered_example = split_args-Ordered line line_tokens line_split

-- A space, a quotation mark and a byte that is no text.
abbrev awkward : List (List ℕ)
awkward = (32 ∷ 34 ∷ 255 ∷ []) ∷ [] ∷ codes "k" ∷ []

split_args-join_quoted_example :
    (ts : List Token) × (split_args (join_quoted awkward) ≡ some (ok ts))
    × (map (λ t. t.bytes) ts ≡ awkward)
split_args-join_quoted_example =
    split_args-join_quoted awkward
      ((omega arith, (omega arith, (omega arith, tt))), (tt, ((omega arith, tt), tt)))
