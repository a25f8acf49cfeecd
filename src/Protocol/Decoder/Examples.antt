-- ===== src/Protocol/Decoder/Examples.antt =====
-- The decoder on concrete bytes.
use penguin_redis.Prelude.{
  ℕ, ◌≡◌, refl, true, some, List, [], ◌∷◌, ◌++◌, ok, length, codes, decimal, arith,
}
use penguin_redis.Protocol.Value.{
  pos, negsuc, cons, nil, cons_pair, nil_pair, simple, integer, bulk, null, array, boolean, double,
  verbatim, map_of, null_bulk, to_values, leaf_count, depth, to_pairs, Value,
}
use penguin_redis.Protocol.Decoder.{
  Budget, default_budget, protocol, budget, done, failed, incomplete, new, feed, decode,
  parse_value, ◌>>=◌,
}
use penguin_redis.Protocol.Decoder.Parsers.{Ext}
use penguin_redis.Protocol.Decoder.Stable.{parse_value-final}
use penguin_redis.Protocol.Decoder.Draining.{waiting, settle, feed_all, concat}
use penguin_redis.Protocol.Decoder.Feeding.{feed_all-concat}
use penguin_redis.Protocol.Decoder.Ends.{Ends, settle-Ends}
use penguin_redis.Protocol.Decoder.Yields.{Yields}
use penguin_redis.Protocol.Decoder.Depth.{Within, parse_value-Within, Sized, count, count_pairs}
use penguin_redis.Protocol.Decoder.Printer.{print, Printable}
use penguin_redis.Protocol.Decoder.Printed.{parse_value-print}

abbrev small : Budget
small = record { max_depth = 3; max_elements = 2; max_bulk_bytes = 4; max_frame_bytes = 64 }

abbrev end : List ℕ
end = 13 ∷ 10 ∷ []

-- A null, an integer and a nested array.
abbrev nested : List ℕ
nested =
    codes "*2"
    ++ end
    ++ codes ":-7"
    ++ end
    ++ codes "*1"
    ++ end
    ++ codes "$3"
    ++ end
    ++ codes "abc"
    ++ end

nested-parses :
    parse_value small 3 nested
    ≡ done (array (cons (integer (negsuc 6)) (cons (array (cons (bulk (codes "abc")) nil)) nil))) []
unfolding parse_value ◌>>=◌ to_values
nested-parses = refl

-- One level fewer is not enough.
nested-too_deep : parse_value small 2 nested ≡ failed budget
unfolding parse_value ◌>>=◌
nested-too_deep = refl

-- The claimed length is refused before any payload has come.
bulk-too_long : parse_value small 3 (codes "$5" ++ end) ≡ failed budget
unfolding parse_value ◌>>=◌
bulk-too_long = refl

null-parses : parse_value small 3 (codes "$-1" ++ end) ≡ done (null null_bulk) []
unfolding parse_value ◌>>=◌
null-parses = refl

streamed-parses :
    parse_value small 3
      (codes "$?" ++ end ++ codes ";2" ++ end ++ codes "ab" ++ end ++ codes ";0" ++ end)
    ≡ done (bulk (codes "ab")) []
unfolding parse_value ◌>>=◌
streamed-parses = refl

streamed-array :
    parse_value small 3 (codes "*?" ++ end ++ codes "+a" ++ end ++ codes "." ++ end)
    ≡ done (array (cons (simple (codes "a")) nil)) []
unfolding parse_value ◌>>=◌ to_values
streamed-array = refl

map-parses :
    parse_value small 3 (codes "%1" ++ end ++ codes "+k" ++ end ++ codes "#t" ++ end)
    ≡ done (map_of (cons_pair (simple (codes "k")) (boolean true) nil_pair)) []
unfolding parse_value ◌>>=◌ to_pairs
map-parses = refl

verbatim-parses :
    parse_value default_budget 64 (codes "=5" ++ end ++ codes "txt:a" ++ end)
    ≡ done (verbatim (codes "txt") (codes "a")) []
unfolding parse_value ◌>>=◌
verbatim-parses = refl

double-parses : parse_value small 3 (codes ",-1.5e3" ++ end) ≡ done (double (codes "-1.5e3")) []
unfolding parse_value ◌>>=◌
double-parses = refl

-- A line feed without its carriage return.
line-bare : parse_value small 3 (codes "+a" ++ 10 ∷ []) ≡ failed protocol
unfolding parse_value ◌>>=◌
line-bare = refl

-- 2^63 is no `i64`, and its negation is.
integer-parses :
    parse_value default_budget 3 (codes ":-9223372036854775808" ++ end)
    ≡ done (integer (negsuc 9223372036854775807)) []
unfolding parse_value ◌>>=◌
integer-parses = refl

integer-too_large :
    parse_value default_budget 3 (codes ":9223372036854775808" ++ end) ≡ failed protocol
unfolding parse_value ◌>>=◌
integer-too_large = refl

nested-leaf_count :
    leaf_count
      (array (cons (integer (negsuc 6)) (cons (array (cons (bulk (codes "abc")) nil)) nil)))
    ≡ 2
unfolding leaf_count
nested-leaf_count = refl

decode-waits :
    decode (feed (new small) (codes "+a")) ≡ some (ok incomplete, feed (new small) (codes "+a"))
unfolding decode feed new ◌>>=◌
decode-waits = refl

abbrev pieces : List (List ℕ)
pieces = (codes "K" ++ 13 ∷ []) ∷ (10 ∷ codes ":4" ++ end) ∷ []

feed_all-three :
    feed_all (new small) (codes "+O" ∷ pieces)
    ≡ (simple (codes "OK") ∷ integer (pos 4) ∷ [], waiting (new small))
unfolding feed_all decode feed new ◌>>=◌
feed_all-three = refl

parse_value-final_example :
    Ext
      (length nested)
      (codes "+x")
      (parse_value small 3 nested)
      (parse_value small 3 (nested ++ codes "+x"))
parse_value-final_example = parse_value-final small 3 nested (codes "+x")

feed_all-concat_example :
    feed_all (new small) (codes "+O" ∷ pieces)
    ≡ feed_all (new small) ((codes "+O" ++ concat pieces) ∷ [])
unfolding new
feed_all-concat_example = feed_all-concat (new small) (codes "+O") pieces (omega arith)

settle-Ends_example : Ends (settle (feed (new small) nested)).1
settle-Ends_example = settle-Ends (feed (new small) nested)

parse_value-Within_example : Yields (Within small 3) (parse_value small 3 nested)
parse_value-Within_example = parse_value-Within small 3 nested

abbrev answer : Value
answer = array (
    cons (integer (negsuc 6))
      (cons (map_of (cons_pair (bulk (codes "k")) (verbatim (codes "txt") []) nil_pair)) nil))

-- The text is the one that a server sends.
answer-printed :
    print answer []
    ≡ codes "*2"
      ++ end
      ++ codes ":-7"
      ++ end
      ++ codes "%1"
      ++ end
      ++ codes "$1"
      ++ end
      ++ codes "k"
      ++ end
      ++ codes "=4"
      ++ end
      ++ codes "txt:"
      ++ end
unfolding print decimal
answer-printed = refl

parse_value-print_example :
    parse_value small 3 (print answer (codes "+x")) ≡ done answer (codes "+x")
unfolding depth Sized Printable count count_pairs
parse_value-print_example =
    parse_value-print small 3 answer (codes "+x") (omega arith, omega arith) (omega arith)
      (omega arith, (tt, ((omega arith, (omega arith, omega arith, tt)), tt)))
      (omega arith, ((tt, (refl, omega arith), tt), tt))
