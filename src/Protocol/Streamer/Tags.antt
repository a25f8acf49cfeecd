-- ===== src/Protocol/Streamer/Tags.antt =====
-- The type bytes, as `parse_tagged` (crates/pr-protocol/src/decoder.rs) and the streamer
-- (crates/pr-protocol/src/stream.rs) tell them apart.
use penguin_redis.Prelude.{
  ℕ, ◌≡◌, refl, sym, subst, inl, inr, true, false, ◌||◌, some, List, ok, ◌==◌, arith, Bool-cases,
}
use penguin_redis.Protocol.Value.{Value, array, set, push, map_of, to_values, to_pairs}
use penguin_redis.Protocol.Decoder.{
  Budget, Parser, done, counted, pair, parse_bulk, parse_attribute, parse_tagged,
}
use penguin_redis.Protocol.Reassembler.{
  AggKind, array_kind, set_kind, push_kind, map_kind, attribute_kind, finish_aggregate,
}
use penguin_redis.Protocol.Streamer.{is_attribute, children_of, kind_of}

-- Which of its branches `parse_tagged` took, as the streamer tells them apart.
pub data Tagged (bd : Budget) (p : Parser Value) (tag : ℕ) (b : List ℕ) (v : Value) (r : List ℕ)
    : Type 0 where
  as_scalar :
      (tag == b'.') ≡ false
      → (tag == b'*' || tag == b'~' || tag == b'>' || tag == b'%' || tag == b'|') ≡ false
      → (tag == b'$' || tag == b'!' || tag == b'=') ≡ true
      → parse_bulk bd tag b ≡ done v r
      → Tagged bd p tag b v r
  as_values :
      (k : AggKind) (build : List Value → Value)
      → (tag == b'.') ≡ false
      → (tag == b'*' || tag == b'~' || tag == b'>' || tag == b'%' || tag == b'|') ≡ true
      → kind_of tag ≡ k
      → is_attribute k ≡ false
      → ((n : ℕ) → children_of k n ≡ some n)
      → ((vs : List Value) → finish_aggregate k vs ≡ ok (build vs))
      → counted bd p build b ≡ done v r
      → Tagged bd p tag b v r
  as_map :
      (tag == b'.') ≡ false
      → (tag == b'*' || tag == b'~' || tag == b'>' || tag == b'%' || tag == b'|') ≡ true
      → kind_of tag ≡ map_kind
      → counted bd (pair p) (λ kvs. map_of (to_pairs kvs)) b ≡ done v r
      → Tagged bd p tag b v r
  as_attribute :
      (tag == b'.') ≡ false
      → (tag == b'*' || tag == b'~' || tag == b'>' || tag == b'%' || tag == b'|') ≡ true
      → kind_of tag ≡ attribute_kind
      → parse_attribute bd p b ≡ done v r
      → Tagged bd p tag b v r
  as_plain :
      (tag == b'.') ≡ false
      → (tag == b'*' || tag == b'~' || tag == b'>' || tag == b'%' || tag == b'|') ≡ false
      → (tag == b'$' || tag == b'!' || tag == b'=') ≡ false
      → Tagged bd p tag b v r

module _ (bd : Budget) (p : Parser Value) (b : List ℕ) (v : Value) (r : List ℕ) where
  abbrev Shown : ℕ → Type 0
  Shown tag = parse_tagged bd p tag b ≡ done v r → Tagged bd p tag b v r

  -- One type byte, or another.
  byte-or : (tag c : ℕ) → Shown c → ((tag == c) ≡ false → Shown tag) → Shown tag
  byte-or tag c f g = elim (Bool-cases (tag == c)) [
    | inl h ↦ let same : tag ≡ c = ground arith in subst Shown (sym same) f
    | inr h ↦ g h
  ]

  at_dot : Shown b'.'
  unfolding parse_tagged
  at_dot e = absurd cc

  at_array : Shown b'*'
  unfolding parse_tagged kind_of is_attribute children_of finish_aggregate
  at_array e =
      as_values array_kind (λ vs. array (to_values vs)) refl refl refl refl (λ n. refl) (λ vs. refl)
        e

  at_set : Shown b'~'
  unfolding parse_tagged kind_of is_attribute children_of finish_aggregate
  at_set e =
      as_values set_kind (λ vs. set (to_values vs)) refl refl refl refl (λ n. refl) (λ vs. refl) e

  at_push : Shown b'>'
  unfolding parse_tagged kind_of is_attribute children_of finish_aggregate
  at_push e =
      as_values push_kind (λ vs. push (to_values vs)) refl refl refl refl (λ n. refl) (λ vs. refl) e

  at_map : Shown b'%'
  unfolding parse_tagged kind_of
  at_map e = as_map refl refl refl e

  at_attribute : Shown b'|'
  unfolding parse_tagged kind_of
  at_attribute e = as_attribute refl refl refl e

  at_bulk : Shown b'$'
  unfolding parse_tagged
  at_bulk e = as_scalar refl refl refl e

  at_error : Shown b'!'
  unfolding parse_tagged
  at_error e = as_scalar refl refl refl e

  at_verbatim : Shown b'='
  unfolding parse_tagged
  at_verbatim e = as_scalar refl refl refl e

  pub parse_tagged-Tagged : (tag : ℕ) → Shown tag
  parse_tagged-Tagged tag = byte-or tag b'.' at_dot λ h0. byte-or tag b'*' at_array λ h1.
      byte-or tag b'~' at_set λ h2. byte-or tag b'>' at_push λ h3. byte-or tag b'%' at_map λ h4.
        byte-or tag b'|' at_attribute λ h5. byte-or tag b'$' at_bulk λ h6.
          byte-or tag b'!' at_error λ h7.
            byte-or tag b'=' at_verbatim
              λ h8. λ e. as_plain h0 (rw (h1, h2, h3, h4, h5) refl) (rw (h6, h7, h8) refl)
