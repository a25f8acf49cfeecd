-- ===== src/Routing/Slot/Examples.antt =====
-- Keys and their slots, and the witnesses of the results on them.
use penguin_redis.Prelude.{ℕ, ◌≡◌, refl, List, [], ◌∷◌, codes}
use penguin_redis.Routing.Slot.{hash_tag, slot_for, crc16}

-- The check value of CRC16/XMODEM.
crc_check : crc16 (codes "123456789") ≡ 0x31c3
unfolding crc16
crc_check = refl

foo_slot : slot_for (codes "foo") ≡ 12182
unfolding slot_for crc16 hash_tag
foo_slot = refl

abbrev tagged : List (List ℕ)
tagged = codes "{u}:a" ∷ codes "{u}:b" ∷ []

abbrev slot : ℕ
slot = 11_826
