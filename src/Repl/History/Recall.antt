-- ===== src/Repl/History/Recall.antt =====
-- A kept line (crates/pr-repl/src/history.rs), split again (crates/pr-repl/src/quoting.rs).
use penguin_redis.Prelude.{
  ℕ, ◌<◌, ◌≡◌, refl, sym, ap, ◌∙◌, false, Bool-cases, inl, inr, some, List, [], ◌∷◌, ◌++◌, ok, map,
  All,
}
use penguin_redis.Repl.Quoting.{Token, quote, split_args}
use penguin_redis.Repl.Quoting.RoundTrip.{spaced, join_quoted, split_args-join_quoted}
use penguin_redis.Repl.Redaction.{
  no_redaction, is_secret_bearing, is_keyword, redact_args, redact_value, effective, redact,
}
use penguin_redis.Repl.Redaction.Hidden.{BearsSecrets, is_secret_bearing-BearsSecrets}
use penguin_redis.Repl.History.{behind_spaces, join_parts}

effective-no_redaction :
    (name : List ℕ) → ¬ BearsSecrets name → effective name no_redaction ≡ no_redaction
unfolding effective
effective-no_redaction name h = elim (Bool-cases (is_secret_bearing name)) [
  | inl secret ↦ absurd (h (is_secret_bearing-BearsSecrets name secret))
  | inr other ↦ rw other refl
]

module _ (blake3 upper_text : List ℕ → List ℕ) where
  behind_spaces-redact_args :
      (argv : List (List ℕ))
      → All (λ a. is_keyword a ≡ false) argv
      → behind_spaces (redact_args blake3 upper_text no_redaction argv) ≡ spaced argv
  unfolding behind_spaces redact_args redact_value spaced
  behind_spaces-redact_args [] h = refl
  behind_spaces-redact_args (arg ∷ argv) h = rw (h.0, behind_spaces-redact_args argv h.1) refl

  -- At the level of no redaction a command other than AUTH, HELLO, MIGRATE, CONFIG and ACL, of which
  -- no argument is a keyword and whose name needs no quotes, is kept whole: `split_args` reads from the kept line the name in upper case and
  -- every argument, whatever its bytes.
  pub split_args-redact :
      (name : List ℕ) (argv : List (List ℕ))
      → ¬ BearsSecrets (upper_text name)
      → quote (upper_text name) ≡ upper_text name
      → All (λ a. is_keyword a ≡ false) argv
      → All (All (λ c. c < 256)) (upper_text name ∷ argv)
      → (ts : List Token) × (split_args
            (join_parts (redact blake3 upper_text (name ∷ argv) no_redaction))
          ≡ some (ok ts))
        × (map (λ t. t.bytes) ts ≡ upper_text name ∷ argv)
  unfolding join_parts redact join_quoted
  split_args-redact name argv h q k bytes =
      let whole : join_parts (redact blake3 upper_text (name ∷ argv) no_redaction)
          ≡ join_quoted (upper_text name ∷ argv) =
        rw (effective-no_redaction (upper_text name) h, behind_spaces-redact_args argv k)
          (ap (λ t. t ++ spaced argv) (sym q)) in
      let (ts, e, p) = split_args-join_quoted (upper_text name ∷ argv) bytes in
      (ts, ap split_args whole ∙ e, p)
