-- ===== src/Security/Approval/Preview.antt =====
-- What an approver sees determines the arguments.
use penguin_redis.Prelude.{
  decimal, ℕ, zero, suc, ◌+◌, ◌/◌, ◌%◌, ◌<◌, ◌≤◌, ◌≡◌, refl, inl, inr, Bool-cases, sym, ◌∙◌, ap₂,
  List, [], ◌∷◌, ◌++◌, arith, ltb, length, All, All-append, append_assoc, codes, hex_digit,
}
use penguin_redis.Core.Request.{CommandRequest}
use penguin_redis.Security.Approval.{
  escape_byte, escape_bytes, preview_line, preview_lines, preview,
}

hex_digit-cancel : (a b : ℕ) → a < 16 → b < 16 → hex_digit a ≡ hex_digit b → a ≡ b
unfolding hex_digit
hex_digit-cancel a b h l e = ground arith

-- One escaped byte, or the closing quotation mark, is never the beginning of another.
escape_byte-cancel :
    (c d : ℕ) (r s : List ℕ)
    → c < 256
    → d < 256
    → escape_byte c ++ r ≡ escape_byte d ++ s
    → (c ≡ d) × (r ≡ s)
unfolding escape_byte
escape_byte-cancel c d r s h l e =
    ground (arith, hex_digit-cancel (c / 16) (d / 16), hex_digit-cancel (c % 16) (d % 16))

escape_byte-quote : (c : ℕ) (r s : List ℕ) → (escape_byte c ++ r ≡ b'"' ∷ s) → ⊥
unfolding escape_byte
escape_byte-quote c r s e = ground arith

escape_bytes-cancel :
    (a b : List ℕ) (r s : List ℕ)
    → All (λ c. c < 256) a
    → All (λ c. c < 256) b
    → escape_bytes a ++ (b'"' ∷ r) ≡ escape_bytes b ++ (b'"' ∷ s)
    → (a ≡ b) × (r ≡ s)
unfolding escape_bytes
escape_bytes-cancel [] [] r s h k e = ground arith
escape_bytes-cancel [] (d ∷ b) r s h k e = absurd (
    escape_byte-quote d (escape_bytes b ++ (b'"' ∷ s)) r
      (sym (e ∙ append_assoc (escape_byte d) (escape_bytes b) (b'"' ∷ s))))
escape_bytes-cancel (c ∷ a) [] r s h k e = absurd (
    escape_byte-quote c (escape_bytes a ++ (b'"' ∷ r)) s
      (sym (append_assoc (escape_byte c) (escape_bytes a) (b'"' ∷ r)) ∙ e))
escape_bytes-cancel (c ∷ a) (d ∷ b) r s (hc, h) (kd, k) e =
    let first =
      escape_byte-cancel c d (escape_bytes a ++ (b'"' ∷ r)) (escape_bytes b ++ (b'"' ∷ s)) hc kd (
        sym (append_assoc (escape_byte c) (escape_bytes a) (b'"' ∷ r))
        ∙ e
        ∙ append_assoc (escape_byte d) (escape_bytes b) (b'"' ∷ s)) in
    let others = escape_bytes-cancel a b r s h k first.1 in
    (ap₂ (λ x xs. x ∷ xs) first.0 others.0, others.1)

-- A number is digits, and digits end at the first byte that is not one.
decimal-digits : (f n : ℕ) → All (λ c. 48 ≤ c) (decimal f n)
unfolding decimal
decimal-digits zero n = tt
decimal-digits (suc f) n = elim (Bool-cases (ltb n 10)) [
  | inl b ↦ rw b (omega arith, tt)
  | inr b ↦ rw b (
      All-append (λ c. 48 ≤ c) (decimal f (n / 10)) ((48 + n % 10) ∷ []) (decimal-digits f (n / 10))
        (omega arith, tt))
]

digits-cancel :
    (x : ℕ) (a b : List ℕ) {r s : List ℕ}
    → x < 48
    → All (λ c. 48 ≤ c) a
    → All (λ c. 48 ≤ c) b
    → a ++ (x ∷ r) ≡ b ++ (x ∷ s)
    → r ≡ s
digits-cancel x [] [] h k l e = ground arith
digits-cancel x [] (d ∷ b) h k l e = absurd (ground arith)
digits-cancel x (c ∷ a) [] h k l e = absurd (ground arith)
digits-cancel x (c ∷ a) (d ∷ b) h (kc, k) (ld, l) e = digits-cancel x a b h k l (ground arith)

append_cancel_left : (a : List ℕ) {r s : List ℕ} → a ++ r ≡ a ++ s → r ≡ s
append_cancel_left [] e = e
append_cancel_left (x ∷ a) e = append_cancel_left a (ground arith)

-- A line of the preview, as far as its number and its length.
abbrev line_of : List ℕ → List ℕ → List ℕ → List ℕ
line_of d x r = codes "argv[" ++ (d ++ (codes "] len=" ++ (x ++ (32 ∷ b'"' ∷ r))))

line_head :
    (i : ℕ) (a r : List ℕ)
    → preview_line i a ++ r
      ≡ line_of (decimal 20 i) (decimal 20 (length a)) (escape_bytes a ++ (b'"' ∷ 10 ∷ r))
unfolding preview_line
line_head i a r = simp append_assoc

line_cancel :
    (d x y r s : List ℕ)
    → All (λ c. 48 ≤ c) x
    → All (λ c. 48 ≤ c) y
    → line_of d x r ≡ line_of d y s
    → r ≡ s
line_cancel d x y r s h k e =
    let at_index = append_cancel_left (codes "argv[") e in
    let at_length = append_cancel_left (codes "] len=") (append_cancel_left d at_index) in
    append_cancel_left (b'"' ∷ []) (digits-cancel 32 x y (omega arith) h k at_length)

line-nil : (i : ℕ) (a r : List ℕ) → (preview_line i a ++ r ≡ []) → ⊥
unfolding preview_line
line-nil i a r e = absurd (ground arith)

preview_lines-cancel :
    (i : ℕ) (xs ys : List (List ℕ))
    → All (All (λ c. c < 256)) xs
    → All (All (λ c. c < 256)) ys
    → preview_lines i xs ≡ preview_lines i ys
    → xs ≡ ys
unfolding preview_lines
preview_lines-cancel i [] [] h k e = refl
preview_lines-cancel i [] (y ∷ ys) h k e = absurd (line-nil i y (preview_lines (i + 1) ys) (sym e))
preview_lines-cancel i (x ∷ xs) [] h k e = absurd (line-nil i x (preview_lines (i + 1) xs) e)
preview_lines-cancel i (x ∷ xs) (y ∷ ys) (hx, h) (ky, k) e =
    let at_text =
      line_cancel (decimal 20 i) (decimal 20 (length x)) (decimal 20 (length y))
        (escape_bytes x ++ (b'"' ∷ 10 ∷ preview_lines (i + 1) xs))
        (escape_bytes y ++ (b'"' ∷ 10 ∷ preview_lines (i + 1) ys)) (decimal-digits 20 (length x))
        (decimal-digits 20 (length y))
        (sym (line_head i x (preview_lines (i + 1) xs))
          ∙ e
          ∙ line_head i y (preview_lines (i + 1) ys)) in
    let parts =
      escape_bytes-cancel x y (10 ∷ preview_lines (i + 1) xs) (10 ∷ preview_lines (i + 1) ys) hx ky
        at_text in
    ap₂ (λ v vs. v ∷ vs) parts.0
      (preview_lines-cancel (i + 1) xs ys h k (append_cancel_left (10 ∷ []) parts.1))

-- Two requests of one preview have the same arguments, in the same order: what an approver reads
-- stands for one argument vector only. (An argument is bytes below 256.)
pub preview-args :
    (p q : CommandRequest)
    → All (All (λ c. c < 256)) p.args
    → All (All (λ c. c < 256)) q.args
    → preview p ≡ preview q
    → p.args ≡ q.args
unfolding preview
preview-args p q h k e = preview_lines-cancel 0 p.args q.args h k (
    digits-cancel 10 (decimal 20 (length p.args)) (decimal 20 (length q.args)) (omega arith)
      (decimal-digits 20 (length p.args)) (decimal-digits 20 (length q.args))
      (append_cancel_left (codes "argc=") e))
