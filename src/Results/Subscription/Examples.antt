-- ===== src/Results/Subscription/Examples.antt =====
-- A subscription of two messages, and the witnesses of the results on it.
use penguin_redis.Prelude.{
  ℕ, ◌≡◌, refl, Option, none, some, List, [], ◌∷◌, ◌++◌, arith, codes, length,
}
use penguin_redis.Results.Subscription.{Message, Subscription, with_limits, push_all, evict, weight}
use penguin_redis.Results.Subscription.Accounts.{Valid, accepted}
use penguin_redis.Results.Subscription.History.{push_all-Valid, push_all_newest}

abbrev message : List ℕ → Message
message payload = record { channel = codes "ch"; pattern = none; payload = payload; at_ms = 7 }

abbrev messages : List Message
messages = message (codes "a") ∷ message (codes "b") ∷ message (codes "c") ∷ []

-- Room for two messages of any size below a thousand bytes; a `Message` takes 104 bytes.
abbrev held : Option Subscription → ℕ
held none = 0
held (some t) = length t.entries

kept_two : held (push_all 104 (with_limits 2 1_000) messages) ≡ 2
unfolding push_all with_limits weight evict
kept_two = refl

push_all-Valid_example :
    (t : Subscription) × (push_all 104 (with_limits 2 1_000) messages ≡ some t)
    × Valid 104 0 t
    × (t.received ≡ length messages)
push_all-Valid_example = push_all-Valid 104 2 1_000 messages (omega arith, omega arith)

push_all_newest_example :
    (t : Subscription) × (push_all 104 (with_limits 2 1_000) messages ≡ some t)
    × ((gone : List Message) × (accepted 104 (with_limits 2 1_000).max_bytes messages
          ≡ gone ++ t.entries))
push_all_newest_example = push_all_newest 104 2 1_000 messages (omega arith, omega arith)
