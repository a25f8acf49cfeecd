-- ===== src/Routing/Slot.antt =====
-- crates/pr-routing/src/slot.rs: from a key to its slot.
pub mod Tags
mod Examples
use Prim.Native.Nat.{bit_xor}
use penguin_redis.Prelude.{
  ℕ, zero, suc, ◌*◌, ◌%◌, Bool, true, false, Option, none, some, List, [], ◌∷◌, leb, ◌==◌,
  if◌then◌else◌, u16,
}

abbrev pub slot_count : ℕ
slot_count = 16_384

-- One turn of the inner loop of `crc16`.
unfoldable pub shift : ℕ → ℕ
shift crc = if leb 0x8000 crc then bit_xor (u16 (crc * 2)) 0x1021 else u16 (crc * 2)

unfoldable pub shifts : ℕ → ℕ → ℕ
unfolding shift
shifts zero crc = crc
shifts (suc n) crc = shifts n (shift crc)

unfoldable pub crc16_from : ℕ → List ℕ → ℕ
unfolding shifts
crc16_from crc [] = crc
crc16_from crc (b ∷ data') = crc16_from (shifts 8 (bit_xor crc (b * 256))) data'

unfoldable pub crc16 : List ℕ → ℕ
unfolding crc16_from
crc16 data' = crc16_from 0 data'

-- What stands behind the first `{`.
unfoldable pub after_open : List ℕ → Option (List ℕ)
after_open [] = none
after_open (c ∷ key) = if c == b'{' then some key else after_open key

-- What stands before the first `}`.
unfoldable pub before_close : List ℕ → Option (List ℕ)
before_close [] = none
before_close (c ∷ key) =
    let rest = before_close key in
    if c == b'}' then some [] else elim rest [ none ↦ none | some tag ↦ some (c ∷ tag) ]

unfoldable pub tag_or : List ℕ → Option (List ℕ) → List ℕ
tag_or key none = key
tag_or key (some []) = key
tag_or key (some (c ∷ tag)) = c ∷ tag

unfoldable pub hash_tag : List ℕ → List ℕ
unfolding after_open before_close tag_or
hash_tag key = elim (after_open key) [ none ↦ key | some rest ↦ tag_or key (before_close rest) ]

unfoldable pub slot_for : List ℕ → ℕ
slot_for key = crc16 (hash_tag key) % slot_count

unfoldable pub same_as : ℕ → List (List ℕ) → Option ℕ
same_as first [] = some first
same_as first (k ∷ keys) = if slot_for k == first then same_as first keys else none

unfoldable pub same_slot : List (List ℕ) → Option ℕ
unfolding same_as
same_slot [] = none
same_slot (k ∷ keys) = same_as (slot_for k) keys
