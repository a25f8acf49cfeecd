-- ===== src/Routing/Redirect/Printed.antt =====
-- `parse_redirect` on the redirects that a server prints.
use penguin_redis.Prelude.{
  ℕ, ◌≤◌, ◌<◌, ◌≡◌, refl, ap, ◌∙◌, Bool, true, false, none, some, List, [], ◌∷◌, ◌++◌, leb, ◌==◌,
  codes, arith, All, All-append, length, decimal, decimal-digit, digits, digits-decimal,
  length-decimal, length-append,
}
use penguin_redis.Routing.Redirect.{
  is_whitespace, skip_whitespace, take_word, word, next_word, in_u16, parse_u16, rsplit_colon,
  split_bracket, split_address, parse_redirect,
}

-- No whitespace.
abbrev pub Solid : List ℕ → Type 0
Solid = All (λ c. is_whitespace c ≡ false)

take_word-append : (w r : List ℕ) → Solid w → take_word (w ++ (32 ∷ r)) ≡ (w, 32 ∷ r)
unfolding take_word
take_word-append [] r h = refl
take_word-append (c ∷ w) r h = rw (h.0, take_word-append w r h.1) refl

take_word-end : (w : List ℕ) → Solid w → take_word w ≡ (w, [])
unfolding take_word
take_word-end [] h = refl
take_word-end (c ∷ w) h = rw (h.0, take_word-end w h.1) refl

skip_whitespace-solid :
    (c : ℕ) (s : List ℕ) → is_whitespace c ≡ false → skip_whitespace (c ∷ s) ≡ c ∷ s
unfolding skip_whitespace
skip_whitespace-solid c s h = rw h refl

next_word-append :
    (w r : List ℕ) → Solid w → 0 < length w → next_word (32 ∷ (w ++ (32 ∷ r))) ≡ some (w, 32 ∷ r)
unfolding next_word skip_whitespace word
next_word-append [] r h l = absurd (omega arith)
next_word-append (c ∷ w) r h l =
    ap word (skip_whitespace-solid c (w ++ (32 ∷ r)) h.0) ∙ ap some (take_word-append (c ∷ w) r h)

next_word-end : (w : List ℕ) → Solid w → 0 < length w → next_word (32 ∷ w) ≡ some (w, [])
unfolding next_word skip_whitespace word
next_word-end [] h l = absurd (omega arith)
next_word-end (c ∷ w) h l =
    ap word (skip_whitespace-solid c w h.0) ∙ ap some (take_word-end (c ∷ w) h)

digit-Solid : (s : List ℕ) → All (λ c. (48 ≤ c) × (c ≤ 57)) s → Solid s
unfolding is_whitespace
digit-Solid [] h = tt
digit-Solid (c ∷ s) h = (ground arith, digit-Solid s h.1)

rsplit_colon-none : (s : List ℕ) → All (λ c. (48 ≤ c) × (c ≤ 57)) s → rsplit_colon s ≡ none
unfolding rsplit_colon
rsplit_colon-none [] h = refl
rsplit_colon-none (c ∷ s) h =
    let no : c == b':' ≡ false = ground arith in rw (rsplit_colon-none s h.1, no) refl

rsplit_colon-append :
    (host s : List ℕ)
    → All (λ c. (48 ≤ c) × (c ≤ 57)) s
    → rsplit_colon (host ++ (b':' ∷ s)) ≡ some (host, s)
unfolding rsplit_colon
rsplit_colon-append [] s h = rw (rsplit_colon-none s h) refl
rsplit_colon-append (c ∷ host) s h = rw (rsplit_colon-append host s h) refl

parse_u16-digits :
    (s : List ℕ) (n : ℕ)
    → All (λ c. (48 ≤ c) × (c ≤ 57)) s
    → 0 < length s
    → digits 0 s ≡ some n
    → n < 65_536
    → parse_u16 s ≡ some n
unfolding parse_u16 in_u16
parse_u16-digits [] n h l e k = absurd (omega arith)
parse_u16-digits (c ∷ []) n h l e k =
    let fits : leb n 65_535 ≡ true = ground arith in rw (e, fits) refl
parse_u16-digits (c ∷ d ∷ s) n h l e k =
    let plus : c == b'+' ≡ false = ground arith in
    let fits : leb n 65_535 ≡ true = ground arith in rw (plus, e, fits) refl

split_bracket-append :
    (host s : List ℕ)
    → All (λ c. c == b']' ≡ false) host
    → split_bracket (host ++ (b']' ∷ b':' ∷ s)) ≡ some (host, s)
unfolding split_bracket
split_bracket-append [] s h = refl
split_bracket-append (c ∷ []) s h = rw h.0 refl
split_bracket-append (c ∷ d ∷ host) s h = rw (h.0, split_bracket-append (d ∷ host) s h.1) refl

-- A host that is not read as the beginning of an address in brackets.
abbrev pub Unbracketed : List ℕ → Type 0
Unbracketed [] = Unit
Unbracketed (c ∷ host) = c == b'[' ≡ false

split_address-plain :
    (host s : List ℕ)
    → Unbracketed host
    → All (λ c. (48 ≤ c) × (c ≤ 57)) s
    → split_address (host ++ (b':' ∷ s)) ≡ some (host, s)
unfolding split_address
split_address-plain [] s h k = rsplit_colon-append [] s k
split_address-plain (c ∷ host) s h k = rw (h, rsplit_colon-append (c ∷ host) s k) refl

split_address-bracketed :
    (host s : List ℕ)
    → All (λ c. c == b']' ≡ false) host
    → split_address (b'[' ∷ (host ++ (b']' ∷ b':' ∷ s))) ≡ some (host, s)
unfolding split_address
split_address-bracketed host s h = split_bracket-append host s h

-- The text of a redirect to an address.
abbrev pub redirect_text : Bool → ℕ → List ℕ → List ℕ
redirect_text true slot address = codes "ASK" ++ (32 ∷ (decimal 5 slot ++ (32 ∷ address)))
redirect_text false slot address = codes "MOVED" ++ (32 ∷ (decimal 5 slot ++ (32 ∷ address)))

parse_u16-decimal : (n : ℕ) → n < 65_536 → parse_u16 (decimal 5 n) ≡ some n
parse_u16-decimal n h =
    parse_u16-digits (decimal 5 n) n (decimal-digit 5 n) (length-decimal 4 n)
      (digits-decimal 5 n (omega arith)) h

parse_redirect-address :
    (ask : Bool) (slot : ℕ) (address host : List ℕ) (port : ℕ)
    → slot < 65_536
    → port < 65_536
    → Solid address
    → 0 < length address
    → split_address address ≡ some (host, decimal 5 port)
    → parse_redirect (redirect_text ask slot address)
      ≡ some (record { ask = ask; slot = slot; host = host; port = port })
unfolding parse_redirect
parse_redirect-address ask slot address host port h k solid long split = by_kind ask
  where
    number :
        next_word (32 ∷ (decimal 5 slot ++ (32 ∷ address))) ≡ some (decimal 5 slot, 32 ∷ address)
    number =
        next_word-append (decimal 5 slot) address
          (digit-Solid (decimal 5 slot) (decimal-digit 5 slot)) (length-decimal 4 slot)

    last : next_word (32 ∷ address) ≡ some (address, [])
    last = next_word-end address solid long

    by_kind :
        (asks : Bool)
        → parse_redirect (redirect_text asks slot address)
          ≡ some (record { ask = asks; slot = slot; host = host; port = port })
    by_kind true = rw (number, parse_u16-decimal slot h, last, split, parse_u16-decimal port k) refl
    by_kind false =
        rw (number, parse_u16-decimal slot h, last, split, parse_u16-decimal port k) refl

-- A redirect is read back from its text: whether it asks or moves, its slot, its host and its port,
-- when the host has no whitespace and does not begin with a bracket.
pub parse_redirect-plain :
    (ask : Bool) (slot : ℕ) (host : List ℕ) (port : ℕ)
    → slot < 65_536
    → port < 65_536
    → Solid host
    → Unbracketed host
    → parse_redirect (redirect_text ask slot (host ++ (b':' ∷ decimal 5 port)))
      ≡ some (record { ask = ask; slot = slot; host = host; port = port })
parse_redirect-plain ask slot host port h k solid plain =
    parse_redirect-address ask slot (host ++ (b':' ∷ decimal 5 port)) host port h k
      (All-append (λ c. is_whitespace c ≡ false) host (b':' ∷ decimal 5 port) solid port-Solid)
      (omega (arith, length-append host (b':' ∷ decimal 5 port)))
      (split_address-plain host (decimal 5 port) plain (decimal-digit 5 port))
  where
    port-Solid : Solid (b':' ∷ decimal 5 port)
    port-Solid = (unfold is_whitespace in refl, digit-Solid (decimal 5 port) (decimal-digit 5 port))

-- The same of a host in brackets, as of an IPv6 address, which has no closing bracket of its own.
pub parse_redirect-bracketed :
    (ask : Bool) (slot : ℕ) (host : List ℕ) (port : ℕ)
    → slot < 65_536
    → port < 65_536
    → Solid host
    → All (λ c. c == b']' ≡ false) host
    → parse_redirect (redirect_text ask slot (b'[' ∷ (host ++ (b']' ∷ b':' ∷ decimal 5 port))))
      ≡ some (record { ask = ask; slot = slot; host = host; port = port })
parse_redirect-bracketed ask slot host port h k solid inner =
    parse_redirect-address ask slot (b'[' ∷ (host ++ (b']' ∷ b':' ∷ decimal 5 port))) host port h k
      (
        unfold is_whitespace in refl,
        All-append (λ c. is_whitespace c ≡ false) host (b']' ∷ b':' ∷ decimal 5 port) solid
            port-Solid,
      )
      (omega arith) (split_address-bracketed host (decimal 5 port) inner)
  where
    port-Solid : Solid (b']' ∷ b':' ∷ decimal 5 port)
    port-Solid =
        unfold is_whitespace in (refl, (refl, digit-Solid (decimal 5 port) (decimal-digit 5 port)))
