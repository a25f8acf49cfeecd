-- ===== src/Protocol/Decoder/Parsers.antt =====
-- When more bytes do not change what a parser of the decoder has decided, and the ways in which the
-- decoder puts parsers together.
use penguin_redis.Prelude.{
  ℕ, zero, suc, ◌≤◌, ◌<◌, Bool, true, false, Option, none, some, List, [], ◌∷◌, ◌++◌, Result, ok,
  err, ltb, leb, ◌==◌, if◌then◌else◌, length, arith,
}
use penguin_redis.Protocol.Decoder.{
  Budget, DecodeError, Parsed, Parser, done, need_more, failed, ◌>>=◌, with_len, repeat, pair,
  until, line,
}

-- `x` is what a parser made of some bytes and `y` what it makes of them with `m` behind: a value
-- is the same, with `m` behind what is left, of which there are at most `n` bytes; an error is
-- the same; and there was fuel enough.
pub data Ext {A : Type 0} (n : ℕ) (m : List ℕ) : Parsed A → Parsed A → Type 0 where
  same : {a : A} {r : List ℕ} → length r ≤ n → Ext n m (done a r) (done a (r ++ m))
  refused : {e : DecodeError} → Ext n m (failed e) (failed e)
  open_ended : {y : Parsed A} → Ext n m need_more y

-- A parser that more bytes do not sway, and that takes no bytes back.
abbrev pub Good : {A : Type 0} → Parser A → Type 0
Good p = (b m : List ℕ) → Ext (length b) m (p b) (p (b ++ m))

-- It takes a byte at least.
abbrev pub Hungry : {A : Type 0} → Parser A → Type 0
Hungry p = (c : ℕ) (b m : List ℕ) → Ext (length b) m (p (c ∷ b)) (p (c ∷ (b ++ m)))

pub Ext-weaken :
    {A : Type 0} {n k : ℕ} {m : List ℕ} {x y : Parsed A} → n ≤ k → Ext n m x y → Ext k m x y
Ext-weaken h (same l) = same (omega arith)
Ext-weaken h refused = refused
Ext-weaken h open_ended = open_ended

pub Ext-if :
    {A : Type 0} {n : ℕ} {m : List ℕ} (c : Bool) {x x' y y' : Parsed A}
    → Ext n m x y
    → Ext n m x' y'
    → Ext n m (if c then x else x') (if c then y else y')
Ext-if true h k = h
Ext-if false h k = k

pub Ext-bind :
    {A B : Type 0} {n k : ℕ} {m : List ℕ} {x y : Parsed A} (f g : A → Parser B)
    → Ext n m x y
    → ((a : A) (r : List ℕ) → length r ≤ n → Ext k m (f a r) (g a (r ++ m)))
    → Ext k m (x >>= f) (y >>= g)
unfolding ◌>>=◌
Ext-bind f g (same {a} {r} l) h = h a r l
Ext-bind f g refused h = refused
Ext-bind f g open_ended h = open_ended

pub Ext-with_len :
    {A : Type 0} {n : ℕ} {m : List ℕ} (l : Result {0, 0} DecodeError (Option ℕ)) {x y : Parsed A}
    (f g : ℕ → Parsed A)
    → Ext n m x y
    → ((i : ℕ) → Ext n m (f i) (g i))
    → Ext n m (with_len l x f) (with_len l y g)
unfolding with_len
Ext-with_len (err e) f g h k = refused
Ext-with_len (ok none) f g h k = h
Ext-with_len (ok (some i)) f g h k = k i

pub Good-repeat : {A : Type 0} (p : Parser A) → Good p → (n : ℕ) → Good (repeat p n)
unfolding repeat
Good-repeat p h zero b m = same (omega arith)
Good-repeat p h (suc n) b m =
    Ext-bind _ _ (h b m)
      λ x r l. Ext-bind _ _ (Good-repeat p h n r m) λ xs r' l'. same (omega arith)

pub Good-pair : {A : Type 0} (p : Parser A) → Good p → Good (pair p)
unfolding pair
Good-pair p h b m = Ext-bind _ _ (h b m) λ k r l. Ext-bind _ _ (h r m) λ v r' l'. same (omega arith)

pub Hungry-pair : {A : Type 0} (p : Parser A) → Good p → Hungry p → Hungry (pair p)
unfolding pair
Hungry-pair p h g c b m =
    Ext-bind _ _ (g c b m) λ k r l. Ext-bind _ _ (h r m) λ v r' l'. same (omega arith)

pub Good-until :
    {A : Type 0} (bd : Budget) (p : Parser A)
    → Good line
    → Hungry p
    → (f g : ℕ) (out : List A) (b m : List ℕ) → length b < f
    → f ≤ g
    → Ext (length b) m (until bd p f out b) (until bd p g out (b ++ m))
unfolding until
Good-until bd p lines h zero g out b m l k = absurd (omega arith)
Good-until bd p lines h (suc f) zero out b m l k = absurd (omega arith)
Good-until bd p lines h (suc f) (suc g) out [] m l k = open_ended
Good-until bd p lines h (suc f) (suc g) out (c ∷ b) m l k =
    Ext-if (c == b'.')
      (Ext-bind _ _ (lines b m) λ s r w. Ext-if (leb (length s) 0) (same (omega arith)) refused)
      (Ext-bind _ _ (h c b m) λ x r w.
        Ext-if (ltb bd.max_elements (length (out ++ x ∷ []))) refused (
          Ext-weaken (omega arith)
            (Good-until bd p lines h f g (out ++ x ∷ []) r m (omega arith) (omega arith))))
