-- ===== src/Repl/Redaction/Hidden.antt =====
-- What `redact` (crates/pr-repl/src/history.rs) hides, and what shows that it did.
use penguin_redis.Prelude.{
  ℕ, ◌≡◌, refl, sym, subst, bytes_eq, bytes_eq_sound, ap, ap₂, ◌⊎◌, inl, inr, Bool, true, false,
  ◌||◌, Option, none, some, List, [], ◌∷◌, ◌++◌, if◌then◌else◌, map, codes, arith,
}
use penguin_redis.Repl.Redaction.{
  RedactionLevel, no_redaction, hash_names, all_arguments, is_keyword, starts_with, is_placeholder,
  has_placeholder, short_hash, redact_value, redact_args, effective, redact, is_secret_bearing,
  is_one_of,
}

or-true : (a b : Bool) → b ≡ true → (a || b) ≡ true
or-true true b h = refl
or-true false b h = h

-- Whether a level hides the values of arguments.
unfoldable pub hides : RedactionLevel → Bool
hides no_redaction = false
hides hash_names = true
hides all_arguments = true

-- The names of the commands that bear secrets.
pub data BearsSecrets : List ℕ → Type 0 where
  auth : BearsSecrets (codes "AUTH")
  hello : BearsSecrets (codes "HELLO")
  migrate : BearsSecrets (codes "MIGRATE")
  config : BearsSecrets (codes "CONFIG")
  acl : BearsSecrets (codes "ACL")

pub is_secret_bearing-BearsSecrets :
    (name : List ℕ) → is_secret_bearing name ≡ true → BearsSecrets name
unfolding is_secret_bearing is_one_of
is_secret_bearing-BearsSecrets name h =
    elim (one_of_five (bytes_eq name (codes "AUTH")) _ _ _ _ h) [
      | inl e ↦ named (codes "AUTH") auth e
      | inr (inl e) ↦ named (codes "HELLO") hello e
      | inr (inr (inl e)) ↦ named (codes "MIGRATE") migrate e
      | inr (inr (inr (inl e))) ↦ named (codes "CONFIG") config e
      | inr (inr (inr (inr e))) ↦ named (codes "ACL") acl e
    ]
  where
    named : (s : List ℕ) → BearsSecrets s → bytes_eq name s ≡ true → BearsSecrets name
    named s b e = subst BearsSecrets (sym (bytes_eq_sound name s e)) b

    one_of_five :
        (a b c d e : Bool)
        → (a || (b || (c || (d || (e || false))))) ≡ true
        → (a ≡ true) ⊎ ((b ≡ true) ⊎ ((c ≡ true) ⊎ ((d ≡ true) ⊎ (e ≡ true))))
    one_of_five a b c d e g = ground arith

pub BearsSecrets-is_secret_bearing :
    (name : List ℕ) → BearsSecrets name → is_secret_bearing name ≡ true
unfolding is_secret_bearing
BearsSecrets-is_secret_bearing _ auth = refl
BearsSecrets-is_secret_bearing _ hello = refl
BearsSecrets-is_secret_bearing _ migrate = refl
BearsSecrets-is_secret_bearing _ config = refl
BearsSecrets-is_secret_bearing _ acl = refl

BearsSecrets-effective :
    (name : List ℕ) (level : RedactionLevel)
    → BearsSecrets name ⊎ (level ≡ all_arguments)
    → effective name level ≡ all_arguments
unfolding effective
BearsSecrets-effective name level (inl s) = rw (BearsSecrets-is_secret_bearing name s) refl
BearsSecrets-effective name level (inr e) = rw e (if-same (is_secret_bearing name))
  where
    if-same : (t : Bool) → (if t then all_arguments else all_arguments) ≡ all_arguments
    if-same true = refl
    if-same false = refl

module _ (blake3 upper_text : List ℕ → List ℕ) where
  -- What of an argument is written as it is: a keyword, in upper case.
  unfoldable pub visible : List ℕ → Option (List ℕ)
  visible arg = if is_keyword arg then some (upper_text arg) else none

  hidden-arg :
      (a b : List ℕ)
      → visible a ≡ visible b
      → (if is_keyword a then upper_text a else redact_value blake3 upper_text all_arguments a)
        ≡ (if is_keyword b then upper_text b else redact_value blake3 upper_text all_arguments b)
  unfolding visible redact_value
  hidden-arg a b e = by_tests (is_keyword a) (is_keyword b) e
    where
      by_tests :
          (c d : Bool)
          → (if c then some (upper_text a) else none) ≡ (if d then some (upper_text b) else none)
          → (if c then upper_text a else codes "[redacted]")
            ≡ (if d then upper_text b else codes "[redacted]")
      by_tests true true g = cc
      by_tests true false g = absurd cc
      by_tests false true g = absurd cc
      by_tests false false g = refl

  hidden-args :
      (as' bs : List (List ℕ))
      → map visible as' ≡ map visible bs
      → redact_args blake3 upper_text all_arguments as'
        ≡ redact_args blake3 upper_text all_arguments bs
  unfolding redact_args
  hidden-args [] [] e = refl
  hidden-args [] (b ∷ bs) e = absurd cc
  hidden-args (a ∷ as') [] e = absurd cc
  hidden-args (a ∷ as') (b ∷ bs) e =
      let first : visible a ≡ visible b = cc in
      let rest : map visible as' ≡ map visible bs = cc in
      ap₂ (λ x y. x ∷ y) (hidden-arg a b first) (hidden-args as' bs rest)

  -- Of AUTH, HELLO, MIGRATE, CONFIG and ACL at every level, and of any command at the level of all
  -- arguments, nothing is kept but its name, how many arguments it has, and which of them are
  -- keywords: two commands that agree on these leave the same record.
  pub redact-hidden :
      (name : List ℕ) (as' bs : List (List ℕ)) (level : RedactionLevel)
      → BearsSecrets (upper_text name) ⊎ (level ≡ all_arguments)
      → map visible as' ≡ map visible bs
      → redact blake3 upper_text (name ∷ as') level ≡ redact blake3 upper_text (name ∷ bs) level
  unfolding redact
  redact-hidden name as' bs level h e =
      rw (BearsSecrets-effective (upper_text name) level h)
        (ap (λ r. upper_text name ∷ r) (hidden-args as' bs e))

  -- Whether an argument is not a keyword.
  unfoldable pub has_value : List (List ℕ) → Bool
  has_value [] = false
  has_value (arg ∷ argv) = if is_keyword arg then has_value argv else true

  starts_with-append : (p s : List ℕ) → starts_with (p ++ s) p ≡ true
  unfolding starts_with
  starts_with-append [] s = refl
  starts_with-append (c ∷ p) s = ground (arith, starts_with-append p s)

  redact_value-placeholder :
      (level : RedactionLevel) (arg : List ℕ)
      → hides level ≡ true
      → is_placeholder (redact_value blake3 upper_text level arg) ≡ true
  unfolding redact_value is_placeholder short_hash hides
  redact_value-placeholder no_redaction arg h = absurd cc
  redact_value-placeholder hash_names arg h = refl
  redact_value-placeholder all_arguments arg h = refl

  redact_args-placeholder :
      (level : RedactionLevel) (argv : List (List ℕ))
      → hides level ≡ true
      → has_value argv ≡ true
      → has_placeholder (redact_args blake3 upper_text level argv) ≡ true
  unfolding redact_args has_placeholder has_value
  redact_args-placeholder level [] h e = absurd cc
  redact_args-placeholder level (arg ∷ argv) h e =
      by_keyword (is_keyword arg) e (redact_args-placeholder level argv h)
        (redact_value-placeholder level arg h)
    where
      by_keyword :
          (c : Bool)
          → (if c then has_value argv else true) ≡ true
          → (has_value argv ≡ true
              → has_placeholder (redact_args blake3 upper_text level argv) ≡ true)
          → is_placeholder (redact_value blake3 upper_text level arg) ≡ true
          → (is_placeholder (if c then upper_text arg else redact_value blake3 upper_text level arg)
              || has_placeholder (redact_args blake3 upper_text level argv))
            ≡ true
      by_keyword true g k l = or-true (is_placeholder (upper_text arg)) _ (k g)
      by_keyword false g k l = rw l refl

  -- A record from which something was hidden says so: when the level hides values and one of the
  -- arguments is not a keyword, a part of the record is a placeholder.
  pub redact-has_placeholder :
      (name : List ℕ) (argv : List (List ℕ)) (level : RedactionLevel)
      → hides (effective (upper_text name) level) ≡ true
      → has_value argv ≡ true
      → has_placeholder (redact blake3 upper_text (name ∷ argv) level) ≡ true
  unfolding redact has_placeholder
  redact-has_placeholder name argv level h e =
      or-true (is_placeholder (upper_text name)) _
        (redact_args-placeholder (effective (upper_text name) level) argv h e)
