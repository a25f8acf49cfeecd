-- ===== src/Routing/Slot/Tags.antt =====
-- Which part of a key counts, and when keys share a slot.
use penguin_redis.Prelude.{
  ℕ, ◌<◌, ◌≡◌, ◌≢◌, refl, sym, subst, ◌↔◌, false, some, List, [], ◌∷◌, ◌++◌, arith, ◌==◌, All,
  length,
}
use penguin_redis.Routing.Slot.{
  hash_tag, after_open, before_close, tag_or, slot_for, same_as, same_slot,
}

after_open-append :
    (before rest : List ℕ)
    → All (λ c. (c == b'{') ≡ false) before
    → after_open (before ++ (b'{' ∷ rest)) ≡ some rest
unfolding after_open
after_open-append [] rest h = refl
after_open-append (c ∷ before) rest h = ground (arith, h.0, after_open-append before rest h.1)

before_close-append :
    (tag rest : List ℕ)
    → All (λ c. (c == b'}') ≡ false) tag
    → before_close (tag ++ (b'}' ∷ rest)) ≡ some tag
unfolding before_close
before_close-append [] rest h = refl
before_close-append (c ∷ tag) rest h = ground (arith, h.0, before_close-append tag rest h.1)

-- Of a key with a tag, just the tag counts: the bytes between the first `{` and the first `}`
-- behind it, when there are any.
pub hash_tag-append :
    (before tag rest : List ℕ)
    → All (λ c. (c == b'{') ≡ false) before
    → All (λ c. (c == b'}') ≡ false) tag
    → tag ≢ []
    → hash_tag (before ++ (b'{' ∷ (tag ++ (b'}' ∷ rest)))) ≡ tag
unfolding hash_tag tag_or
hash_tag-append before [] rest h k n = absurd (n refl)
hash_tag-append before (c ∷ tag) rest h k n =
    rw
      (
        hash_tag,
        after_open-append before ((c ∷ tag) ++ (b'}' ∷ rest)) h,
        before_close-append (c ∷ tag) rest k,
      )
      refl

same_as_iff :
    (first : ℕ) (keys : List (List ℕ)) (n : ℕ)
    → (same_as first keys ≡ some n) ↔ ((n ≡ first) × All (λ k. slot_for k ≡ first) keys)
unfolding same_as
same_as_iff first [] n = ground arith
same_as_iff first (k ∷ keys) n = ground (arith, same_as_iff first keys n)

-- Keys share the slot that `same_slot` answers, and it answers whenever there is one: exactly
-- when there is a key and every key maps to it.
pub same_slot_iff :
    (keys : List (List ℕ)) (n : ℕ)
    → (same_slot keys ≡ some n) ↔ ((0 < length keys) × All (λ k. slot_for k ≡ n) keys)
unfolding same_slot
same_slot_iff [] n = ground arith
same_slot_iff (k ∷ keys) n = (
  λ e.
      let q = (same_as_iff (slot_for k) keys n).0 e in
      (omega arith, (sym q.0, subst (λ m. All (λ k'. slot_for k' ≡ m) keys) (sym q.0) q.1)),
  λ h.
      (same_as_iff (slot_for k) keys n).1
        (sym h.1.0, subst (λ m. All (λ k'. slot_for k' ≡ m) keys) (sym h.1.0) h.1.1),
)
