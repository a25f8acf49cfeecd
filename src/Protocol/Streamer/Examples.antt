-- ===== src/Protocol/Streamer/Examples.antt =====
-- The streaming decoder on concrete bytes.
use penguin_redis.Prelude.{
  ℕ, ◌≡◌, refl, true, none, some, List, [], ◌∷◌, ◌++◌, ok, err, codes, arith, is_some,
}
use penguin_redis.Protocol.Value.{
  Value, cons, nil, cons_pair, nil_pair, simple, bulk, null, null_resp3, array, map_of, null_bulk,
  to_pairs, to_values,
}
use penguin_redis.Protocol.Decoder.{Budget, protocol, budget, ◌>>=◌}
use penguin_redis.Protocol.Streamer.{
  StreamBudget, Streamer, payload_left, start, feed_stream, advance, decode_by_streaming,
  decode_by_value,
}
use penguin_redis.Protocol.Streamer.Runs.{decode_by_streaming-answers}
use penguin_redis.Protocol.Streamer.Agrees.{decode_by_streaming-value}
use penguin_redis.Protocol.Streamer.Limits.{Keeps, to_come}
use penguin_redis.Protocol.Streamer.Kept.{advance-Keeps}

abbrev small : Budget
small = record { max_depth = 3; max_elements = 2; max_bulk_bytes = 4; max_frame_bytes = 128 }

-- Every scalar of two bytes or more is streamed.
abbrev tight : StreamBudget
tight = record { stream_above = 2; max_streamed_bytes = 8 }

abbrev end : List ℕ
end = 13 ∷ 10 ∷ []

-- A bulk string, and a streamed map from a streamed string to a short one.
abbrev frame : List ℕ
frame =
    codes "*2"
    ++ end
    ++ codes "$3"
    ++ end
    ++ codes "abc"
    ++ end
    ++ codes "%?"
    ++ end
    ++ codes "$?"
    ++ end
    ++ codes ";2"
    ++ end
    ++ codes "xy"
    ++ end
    ++ codes ";0"
    ++ end
    ++ codes "+z"
    ++ end
    ++ codes "."
    ++ end

abbrev frame_value : Value
frame_value = array (
    cons (bulk (codes "abc"))
      (cons (map_of (cons_pair (bulk (codes "xy")) (simple (codes "z")) nil_pair)) nil))

frame-streamed : decode_by_streaming frame small tight ≡ some (ok (some frame_value))
unfolding decode_by_streaming ◌>>=◌ to_values to_pairs
frame-streamed = refl

frame-decoded : decode_by_value frame small ≡ some (ok (some frame_value))
unfolding decode_by_value ◌>>=◌ to_values to_pairs
frame-decoded = refl

decode_by_streaming-value_example :
    decode_by_streaming frame small tight ≡ some (ok (some frame_value))
decode_by_streaming-value_example =
    decode_by_streaming-value frame small tight frame_value (omega arith, omega arith, omega arith)
      frame-decoded

decode_by_streaming-answers_example : is_some (decode_by_streaming frame small tight) ≡ true
decode_by_streaming-answers_example = decode_by_streaming-answers frame small tight

-- A streamer inside a payload, four bytes of which are to come.
abbrev inside_payload : Streamer
inside_payload = record (feed_stream (start small tight) (codes "ab")) { state = payload_left 4 }

advance-Keeps_example : Keeps inside_payload (advance inside_payload)
unfolding feed_stream start to_come
advance-Keeps_example = advance-Keeps inside_payload (omega arith, omega arith, omega arith)

-- A scalar at the deepest level, where the value decoder gives up and the streaming one does not.
abbrev shallow : Budget
shallow = record { max_depth = 1; max_elements = 2; max_bulk_bytes = 4; max_frame_bytes = 128 }

abbrev deep : List ℕ
deep = codes "*1" ++ end ++ codes "$-1" ++ end

deep-decoded : decode_by_value deep shallow ≡ some (err budget)
unfolding decode_by_value ◌>>=◌
deep-decoded = refl

deep-streamed :
    decode_by_streaming deep shallow tight ≡ some (ok (some (array (cons (null null_bulk) nil))))
unfolding decode_by_streaming ◌>>=◌ to_values
deep-streamed = refl

-- A streamed aggregate of more elements than the budget has.
abbrev many : List ℕ
many =
    codes "*?"
    ++ end
    ++ codes "_"
    ++ end
    ++ codes "_"
    ++ end
    ++ codes "_"
    ++ end
    ++ codes "."
    ++ end

many-decoded : decode_by_value many small ≡ some (err budget)
unfolding decode_by_value ◌>>=◌
many-decoded = refl

many-streamed :
    decode_by_streaming many small tight
    ≡ some (
        ok (
          some
            (array (cons (null null_resp3) (cons (null null_resp3) (cons (null null_resp3) nil))))))
unfolding decode_by_streaming ◌>>=◌ to_values
many-streamed = refl

-- A map of an odd number of values.
abbrev odd : List ℕ
odd = codes "%?" ++ end ++ codes "_" ++ end ++ codes "." ++ end

odd-streamed : decode_by_streaming odd small tight ≡ some (err protocol)
unfolding decode_by_streaming ◌>>=◌
odd-streamed = refl

-- Half a payload waits for the rest.
cut-streamed : decode_by_streaming (codes "$3" ++ end ++ codes "a") small tight ≡ some (ok none)
unfolding decode_by_streaming ◌>>=◌
cut-streamed = refl
