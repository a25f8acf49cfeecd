-- ===== src/Results/Subscription.antt =====
-- crates/pr-results/src/subscription.rs: the ring buffer of a subscription.
--
-- `std::mem::size_of::<Message>()` is fixed by the compiler: it is the parameter `message_size`.
-- The two loops of `push` run on fuel, and `none` says that it ran out: `push` gives each one
-- round more than there are messages to evict. The counters keep their wrap-around.
pub mod Loops
pub mod Accounts
pub mod History
mod Examples
use penguin_redis.Prelude.{
  ℕ, zero, suc, ◌+◌, ◌-◌, ◌*◌, ◌%◌, ◌^◌, Bool, true, false, Option, none, some, List, [], ◌∷◌, ◌++◌,
  ltb, ◌==◌, if◌then◌else◌, length, u64, max,
}

abbrev pub max_entries_default : ℕ
max_entries_default = 10_000

abbrev pub max_bytes_default : ℕ
max_bytes_default = 16 * 1024 * 1024

pub record Message : Type 0 where
  pub channel : List ℕ
  pub pattern : Option (List ℕ)
  pub payload : List ℕ
  pub at_ms : ℕ

pub record Dropped : Type 0 where
  pub by_count : ℕ
  pub by_bytes : ℕ
  pub oversized : ℕ

unfoldable pub total : Dropped → ℕ
total d = u64 (u64 (d.by_count + d.by_bytes) + d.oversized)

pub record Subscription : Type 0 where
  pub entries : List Message
  pub bytes : ℕ
  pub max_entries : ℕ
  pub max_bytes : ℕ
  pub received : ℕ
  pub dropped : Dropped

-- `max_entries.max(1)` and `max_bytes.max(1)`.
unfoldable pub with_limits : ℕ → ℕ → Subscription
with_limits max_entries max_bytes = record {
  entries = [];
  bytes = 0;
  max_entries = if ltb max_entries 1 then 1 else max_entries;
  max_bytes = if ltb max_bytes 1 then 1 else max_bytes;
  received = 0;
  dropped = record { by_count = 0; by_bytes = 0; oversized = 0 };
}

pattern_length : Option (List ℕ) → ℕ
pattern_length none = 0
pattern_length (some p) = length p

unfoldable pub is_complete : Subscription → Bool
unfolding total
is_complete s = total s.dropped == 0

count_eviction : Bool → Dropped → Dropped
count_eviction true d = record d { by_count = u64 (d.by_count + 1) }
count_eviction false d = record d { by_bytes = u64 (d.by_bytes + 1) }

is_empty : List Message → Bool
is_empty [] = true
is_empty (m ∷ ms) = false

module _ (message_size : ℕ) where
  unfoldable pub weight : Message → ℕ
  unfolding pattern_length
  weight m = u64 (length m.channel + pattern_length m.pattern + length m.payload + message_size)

  -- What is left when `old` has left the front. The subtraction saturates at 0, as `-` does.
  evict_front : Bool → List Message → Subscription → Subscription
  unfolding count_eviction
  evict_front by_count [] s = s
  evict_front by_count (old ∷ rest) s = record s {
    entries = rest;
    bytes = s.bytes - weight old;
    dropped = count_eviction by_count s.dropped;
  }

  pub evict : Bool → Subscription → Subscription
  unfolding evict_front
  evict by_count s = evict_front by_count s.entries s

  -- `while self.entries.len() + 1 > self.max_entries`.
  pub trim_count : ℕ → Subscription → Option Subscription
  trim_count zero s = none
  trim_count (suc f) s = elim (ltb s.max_entries (length s.entries + 1)) [
    | true ↦ trim_count f (evict true s)
    | false ↦ some s
  ]

  -- `while self.bytes + w > self.max_bytes`, which an empty record leaves.
  pub trim_bytes : ℕ → ℕ → Subscription → Option Subscription
  unfolding is_empty
  trim_bytes zero w s = none
  trim_bytes (suc f) w s = elim (ltb s.max_bytes (u64 (s.bytes + w))) [
    | true ↦ elim (is_empty s.entries) [ true ↦ some s | false ↦ trim_bytes f w (evict false s) ]
    | false ↦ some s
  ]

  -- The message goes to the back.
  pub append_message : Message → Subscription → Subscription
  append_message m s = record s { bytes = u64 (s.bytes + weight m); entries = s.entries ++ m ∷ [] }

  abbrev pub receive : Subscription → Subscription
  receive s = record s { received = u64 (s.received + 1) }

  pub refuse : Subscription → Subscription
  refuse s = record s { dropped = record d { oversized = u64 (d.oversized + 1) } }
    where
      d : Dropped
      d = s.dropped

  unfoldable pub push : Subscription → Message → Option Subscription
  unfolding trim_count trim_bytes append_message refuse
  push s m =
      let n = suc (length s.entries) in
      let w = weight m in
      if ltb s.max_bytes w then some (refuse (receive s)) else elim (trim_count n (receive s)) [
        | none ↦ none
        | some t ↦ elim (trim_bytes n w t) [ none ↦ none | some u ↦ some (append_message m u) ]
      ]

  -- The messages of a subscription, one after the other.
  unfoldable pub push_all : Subscription → List Message → Option Subscription
  unfolding push
  push_all s [] = some s
  push_all s (m ∷ ms) = elim (push s m) [ none ↦ none | some t ↦ push_all t ms ]
