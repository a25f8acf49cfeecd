-- ===== src/Protocol/Decoder/Stable.antt =====
-- The answers of the decoder on some bytes, and on those bytes with more behind.
use penguin_redis.Prelude.{
  ℕ, zero, suc, ◌+◌, ◌≤◌, ◌<◌, ◌≡◌, refl, ap, inl, inr, Bool, true, false, not, ◌&&◌, ◌||◌, List,
  [], ◌∷◌, ◌++◌, Result, ok, err, ltb, ◌==◌, length, take, drop, length-append, arith, Bool-cases,
  bytes_eq,
}
use penguin_redis.Protocol.Value.{Value}
use penguin_redis.Protocol.Decoder.{
  Budget, DecodeError, Parser, done, failed, pair, line, after_cr, crlf, take_payload, chunks,
  payload, parse_bulk, parse_len, is_question, counted, parse_attribute, parse_boolean,
  parse_integer, parse_i64, checked, parse_tagged, parse_value,
}
use penguin_redis.Protocol.Decoder.Parsers.{
  Ext, same, refused, open_ended, Good, Hungry, Ext-weaken, Ext-if, Ext-bind, Ext-with_len,
  Good-repeat, Good-pair, Hungry-pair, Good-until,
}

pub Good-line : Good line
unfolding line after_cr
Good-line [] m = open_ended
Good-line (c ∷ b) m =
    Ext-if (c == 13) (behind b m)
      (Ext-if (c == 10) refused (Ext-bind _ _ (Good-line b m) λ s r l. same (omega arith)))
  where
    behind : (b m : List ℕ) → Ext (suc (length b)) m (after_cr b) (after_cr (b ++ m))
    behind [] m = open_ended
    behind (d ∷ b) m = Ext-if (d == 10) (same (omega arith)) refused

Ext-crlf :
    (data' b m : List ℕ) → 2 ≤ length b → Ext (length b) m (crlf data' b) (crlf data' (b ++ m))
unfolding crlf
Ext-crlf data' [] m h = absurd (omega arith)
Ext-crlf data' (c ∷ []) m h = absurd (omega arith)
Ext-crlf data' (c ∷ d ∷ r) m h = Ext-if (c == 13 && d == 10) (same (omega arith)) refused

-- The first `n` of enough bytes.
payload_at :
    (n : ℕ) (b m : List ℕ)
    → n + 2 ≤ length b
    → (take n (b ++ m) ≡ take n b)
      × (drop n (b ++ m) ≡ drop n b ++ m)
      × (2 ≤ length (drop n b))
      × (length (drop n b) ≤ length b)
payload_at zero b m h = (refl, refl, omega arith, omega arith)
payload_at (suc n) [] m h = absurd (omega arith)
payload_at (suc n) (c ∷ b) m h =
    let q = payload_at n b m (omega arith) in (ap (λ t. c ∷ t) q.0, q.1, q.2, omega arith)

Good-take_payload : (n : ℕ) → Good (take_payload n)
unfolding take_payload
Good-take_payload n b m = elim (Bool-cases (ltb (length b) (n + 2))) [
  | inl short ↦ rw short open_ended
  | inr long ↦
      let q = payload_at n b m (ground arith) in
      let long' : ltb (length (b ++ m)) (n + 2) ≡ false = ground (arith, length-append b m) in
      rw (long, long', q.0, q.1) (Ext-weaken q.3 (Ext-crlf (take n b) (drop n b) m q.2))
]

Good-chunks :
    (bd : Budget) (f g : ℕ) (out b m : List ℕ)
    → length b < f
    → f ≤ g
    → Ext (length b) m (chunks bd f out b) (chunks bd g out (b ++ m))
unfolding chunks
Good-chunks bd zero g out b m l k = absurd (omega arith)
Good-chunks bd (suc f) zero out b m l k = absurd (omega arith)
Good-chunks bd (suc f) (suc g) out [] m l k = open_ended
Good-chunks bd (suc f) (suc g) out (c ∷ b) m l k = Ext-if (not (c == b';')) refused (
    Ext-bind _ _ (Good-line b m) λ hdr r w.
      Ext-with_len (parse_len bd.max_bulk_bytes hdr) _ _ refused λ n.
        Ext-if (n == 0) (same (omega arith)) (
          Ext-if (ltb bd.max_bulk_bytes (length out + n)) refused (
            Ext-bind _ _ (Good-take_payload n r m) λ chunk r' w'.
              Ext-weaken (omega arith)
                (Good-chunks bd f g (out ++ chunk) r' m (omega arith) (omega arith)))))

Ext-payload :
    (tag : ℕ) (data' r m : List ℕ) (n : ℕ)
    → length r ≤ n
    → Ext n m (payload tag data' r) (payload tag data' (r ++ m))
unfolding payload
Ext-payload tag (x ∷ y ∷ z ∷ c ∷ data') r m n h =
    Ext-if (tag == b'$') (same h)
      (Ext-if (tag == b'!') (same h) (Ext-if (c == b':') (same h) refused))
Ext-payload tag _ r m n h = Ext-if (tag == b'$') (same h) (Ext-if (tag == b'!') (same h) refused)

Good-parse_bulk : (bd : Budget) (tag : ℕ) → Good (parse_bulk bd tag)
unfolding parse_bulk
Good-parse_bulk bd tag b m = Ext-bind _ _ (Good-line b m) λ hdr r l.
    Ext-if (tag == b'$' && is_question hdr)
      (Ext-bind _ _
        (Good-chunks bd (suc (length r)) (suc (length (r ++ m))) [] r m (omega arith)
          (omega (arith, length-append r m)))
        λ out r' l'. same (omega arith))
      (Ext-with_len (parse_len bd.max_bulk_bytes hdr) _ _ (same (omega arith)) λ n.
        Ext-bind _ _ (Good-take_payload n r m)
          λ data' r' l'. Ext-payload tag data' r' m _ (omega arith))

Good-counted :
    {A : Type 0} (bd : Budget) (p : Parser A) (build : List A → Value)
    → Good p
    → Hungry p
    → Good (counted bd p build)
unfolding counted
Good-counted bd p build h g b m = Ext-bind _ _ (Good-line b m) λ hdr r l.
    Ext-if (is_question hdr)
      (Ext-bind _ _
        (Good-until bd p Good-line g (suc (length r)) (suc (length (r ++ m))) [] r m (omega arith)
          (omega (arith, length-append r m)))
        λ items r' l'. same (omega arith))
      (Ext-with_len (parse_len bd.max_elements hdr) _ _ (same (omega arith))
        λ n. Ext-bind _ _ (Good-repeat p h n r m) λ items r' l'. same (omega arith))

Good-parse_attribute : (bd : Budget) (p : Parser Value) → Good p → Good (parse_attribute bd p)
unfolding parse_attribute
Good-parse_attribute bd p h b m = Ext-bind _ _ (Good-line b m) λ hdr r l.
    Ext-with_len (parse_len bd.max_elements hdr) _ _ refused λ n.
      Ext-bind _ _ (Good-repeat (pair p) (Good-pair p h) n r m)
        λ attrs r' l'. Ext-bind _ _ (h r' m) λ v r'' l''. same (omega arith)

Ext-checked :
    (c : Bool) (v : Value) (r m : List ℕ) (n : ℕ)
    → length r ≤ n
    → Ext n m (checked c v r) (checked c v (r ++ m))
unfolding checked
Ext-checked true v r m n h = same h
Ext-checked false v r m n h = refused

Ext-parse_integer :
    (l r m : List ℕ) (n : ℕ) → length r ≤ n → Ext n m (parse_integer l r) (parse_integer l (r ++ m))
unfolding parse_integer
Ext-parse_integer l r m n h = by_result (parse_i64 l)
  where
    by_result :
        (i : Result {0, 0} DecodeError _)
        → Ext n m
            (elim i [ ok k ↦ done (Value.integer k) r | err e ↦ failed e ])
            (elim i [ ok k ↦ done (Value.integer k) (r ++ m) | err e ↦ failed e ])
    by_result (ok k) = same h
    by_result (err e) = refused

Good-parse_tagged :
    (bd : Budget) (p : Parser Value) (tag : ℕ) → Good p → Hungry p → Good (parse_tagged bd p tag)
unfolding parse_tagged parse_boolean
Good-parse_tagged bd p tag h g b m = Ext-if (tag == b'+') (Ext-bind _ _ lines λ l r w. same w) (
    Ext-if (tag == b'-') (Ext-bind _ _ lines λ l r w. same w) (
      Ext-if (tag == b':') (Ext-bind _ _ lines λ l r w. Ext-parse_integer l r m _ w) (
        Ext-if (tag == b'#') (Ext-bind _ _ lines λ l r w. booleans l r w) (
          Ext-if (tag == b'_') (Ext-bind _ _ lines λ l r w. Ext-checked _ _ r m _ w) (
            Ext-if (tag == b',') (Ext-bind _ _ lines λ l r w. Ext-checked _ _ r m _ w) (
              Ext-if (tag == b'(') (Ext-bind _ _ lines λ l r w. Ext-checked _ _ r m _ w) (
                Ext-if (tag == b'$' || tag == b'!' || tag == b'=') (Good-parse_bulk bd tag b m) (
                  Ext-if (tag == b'*') (Good-counted bd p _ h g b m) (
                    Ext-if (tag == b'~') (Good-counted bd p _ h g b m) (
                      Ext-if (tag == b'>') (Good-counted bd p _ h g b m) (
                        Ext-if (tag == b'%')
                          (Good-counted bd (pair p) _ (Good-pair p h) (Hungry-pair p h g) b m)
                          (Ext-if (tag == b'|') (Good-parse_attribute bd p h b m)
                            refused))))))))))))
  where
    lines : Ext (length b) m (line b) (line (b ++ m))
    lines = Good-line b m

    booleans :
        (l r : List ℕ)
        → length r ≤ length b
        → Ext (length b) m (parse_boolean l r) (parse_boolean l (r ++ m))
    booleans l r w =
        Ext-if (bytes_eq l (b't' ∷ [])) (same w) (Ext-if (bytes_eq l (b'f' ∷ [])) (same w) refused)

mutual
  unfolding parse_value

  pub Good-parse_value : (bd : Budget) (left : ℕ) → Good (parse_value bd left)
  Good-parse_value bd zero b m = refused
  Good-parse_value bd (suc left) [] m = open_ended
  Good-parse_value bd (suc left) (tag ∷ b) m = Ext-weaken (omega arith) (
      Good-parse_tagged bd (parse_value bd left) tag (Good-parse_value bd left)
        (Hungry-parse_value bd left) b m)

  pub Hungry-parse_value : (bd : Budget) (left : ℕ) → Hungry (parse_value bd left)
  Hungry-parse_value bd zero c b m = refused
  Hungry-parse_value bd (suc left) tag b m =
      Good-parse_tagged bd (parse_value bd left) tag (Good-parse_value bd left)
        (Hungry-parse_value bd left) b m

-- What `parse_value` decides about the bytes it has, it decides about those bytes with any more
-- behind them: a value is the same value and takes the same bytes, an error is the same error;
-- and it always decides, or waits for more: the fuel is enough.
pub parse_value-final :
    (bd : Budget) (left : ℕ) (b m : List ℕ)
    → Ext (length b) m (parse_value bd left b) (parse_value bd left (b ++ m))
parse_value-final = Good-parse_value
