-- ===== src/Mcp/Policy/Grants.antt =====
-- What follows from a policy's approval.
use penguin_redis.Prelude.{
  ℕ, ◌≤◌, ◌<◌, ◌≡◌, refl, ◌≢◌, ◌==◌, subst, ap, ◌∙◌, inl, inr, Bool, true, false, Option, none,
  some, List, [], ◌∷◌, ok, length, arith, Bool-cases, All,
}
use penguin_redis.Core.Request.{Effects, CommandRequest}
use penguin_redis.Mcp.Glob.{glob_bytes}
use penguin_redis.Mcp.Glob.Meaning.{Takes, Matches, glob_bytes-Matches}
use penguin_redis.Mcp.Policy.{PolicyRule, glob_match, any_match, is_empty, uncovered, may_authorise}

-- What Redis takes a pattern of `*`, `?` and bytes that stand for themselves to cover.
pub data Covers : List ℕ → List ℕ → Type 0 where
  finished : Covers [] []
  star_none : {p k : List ℕ} → Covers p k → Covers (b'*' ∷ p) k
  star_more : {p k : List ℕ} {c : ℕ} → Covers (b'*' ∷ p) k → Covers (b'*' ∷ p) (c ∷ k)
  any_byte : {p k : List ℕ} {c : ℕ} → Covers p k → Covers (b'?' ∷ p) (c ∷ k)
  itself : {p k : List ℕ} {c : ℕ} → c ≢ b'*' → c ≢ b'?' → Covers p k → Covers (c ∷ p) (c ∷ k)

-- A pattern without a class and without an escape.
abbrev pub PlainPattern : List ℕ → Type 0
PlainPattern = All (λ c. (c ≢ b'[') × (c ≢ b'\\'))

itself-Covers : (c : ℕ) {p k : List ℕ} → Covers p k → Covers (c ∷ p) (c ∷ k)
itself-Covers c {p = p} {k = k} h = elim (Bool-cases (c == b'*')) [
  | inl star ↦
      let same : b'*' ≡ c = ground arith in
      subst (λ x. Covers (x ∷ p) (c ∷ k)) same (star_more (star_none h))
  | inr plain ↦ elim (Bool-cases (c == b'?')) [
    | inl mark ↦
        let same : b'?' ≡ c = ground arith in subst (λ x. Covers (x ∷ p) (c ∷ k)) same (any_byte h)
    | inr other ↦ itself (λ e. ground arith) (λ e. ground arith) h
  ]
]

Matches-Covers : {p k : List ℕ} → Matches p k → PlainPattern p → Covers p k
Matches-Covers Matches.finished h = finished
Matches-Covers (Matches.star_none m) h = star_none (Matches-Covers m h.1)
Matches-Covers (Matches.star_more m) h = star_more (Matches-Covers m h)
Matches-Covers (Matches.one Takes.any_byte m) h = any_byte (Matches-Covers m h.1)
Matches-Covers (Matches.one (Takes.one_of e) m) h = absurd (h.0.0 refl)
Matches-Covers (Matches.one Takes.escaped m) h = absurd (h.0.1 refl)
Matches-Covers (Matches.one {c = c} Takes.itself m) h = itself-Covers c (Matches-Covers m h.1)

-- One of the patterns covers the key.
pub data Listed (key : List ℕ) : List (List ℕ) → Type 0 where
  here : {p : List ℕ} {patterns : List (List ℕ)} → Covers p key → Listed key (p ∷ patterns)
  there : {p : List ℕ} {patterns : List (List ℕ)} → Listed key patterns → Listed key (p ∷ patterns)

glob_match-Matches : (p k : List ℕ) → glob_match p k ≡ true → Matches p k
unfolding glob_match
glob_match-Matches p k h = by_answer (glob_bytes p k) refl h
  where
    by_answer :
        (x : Option Bool)
        → glob_bytes p k ≡ x
        → elim x [ some answer ↦ answer | none ↦ false ] ≡ true
        → Matches p k
    by_answer none e t = absurd (ground arith)
    by_answer (some answer) e t = glob_bytes-Matches p k (e ∙ ap some t)

any_match-Listed :
    (patterns : List (List ℕ)) (key : List ℕ)
    → All PlainPattern patterns
    → any_match patterns key ≡ true
    → Listed key patterns
unfolding any_match
any_match-Listed [] key q h = absurd (ground arith)
any_match-Listed (p ∷ patterns) key q h = elim (Bool-cases (glob_match p key)) [
  | inl hit ↦ here (Matches-Covers (glob_match-Matches p key hit) q.0)
  | inr miss ↦ there (any_match-Listed patterns key q.1 (ground arith))
]

-- The request only reads, as far as the catalog says.
pub record ReadsOnly (e : Effects) : Type 0 where
  pub reads : e.reads_data ≡ true
  pub known : e.unknown ≡ false
  pub no_write : e.writes_data ≡ false
  pub no_destruction : e.destructive ≡ false
  pub no_consumption : e.consumes ≡ false
  pub no_administration : e.admin ≡ false
  pub no_blocking : e.blocks ≡ false

module _ (to_lossy : List ℕ → List ℕ) where
  uncovered-Listed :
      (patterns keys : List (List ℕ))
      → All PlainPattern patterns
      → uncovered to_lossy patterns keys ≡ none
      → All (λ k. Listed (to_lossy k) patterns) keys
  unfolding uncovered
  uncovered-Listed patterns [] q h = tt
  uncovered-Listed patterns (k ∷ keys) q h = elim (Bool-cases (any_match patterns (to_lossy k))) [
    | inl hit ↦ (
      any_match-Listed patterns (to_lossy k) q hit,
      uncovered-Listed patterns keys q (ground arith),
    )
    | inr miss ↦ absurd (ground arith)
  ]

  is_empty-length : (keys : List (List ℕ)) → is_empty keys ≡ false → 1 ≤ length keys
  unfolding is_empty
  is_empty-length [] h = absurd (ground arith)
  is_empty-length (k ∷ keys) h = omega arith

  -- What a policy may approve.
  pub record Granted (rule : PolicyRule) (req : CommandRequest) (keys : List (List ℕ))
      (estimated calls : ℕ) : Type 0 where
    pub reads_only : ReadsOnly req.effects
    pub some_keys : 1 ≤ length keys
    pub listed : All (λ k. Listed (to_lossy k) rule.key_patterns) keys
    pub in_budget : estimated ≤ rule.max_result_bytes
    pub in_rate : calls < rule.max_calls_per_hour

  -- A rule authorises only requests that read and do nothing else, with at least one key, of which
  -- the lossy text of each is covered by a pattern the rule lists, as Redis reads it, with a result
  -- within its budget, and while there are fewer calls than it allows. The rule's patterns have no
  -- class and no escape.
  pub may_authorise-Granted :
      (rule : PolicyRule) (req : CommandRequest) (keys : List (List ℕ)) (estimated calls : ℕ)
      → All PlainPattern rule.key_patterns
      → may_authorise to_lossy rule req keys estimated calls ≡ ok tt
      → Granted rule req keys estimated calls
  unfolding may_authorise
  may_authorise-Granted rule req keys estimated calls q h = record {
    reads_only = record {
      reads = ground arith;
      known = ground arith;
      no_write = ground arith;
      no_destruction = ground arith;
      no_consumption = ground arith;
      no_administration = ground arith;
      no_blocking = ground arith;
    };
    some_keys = nonempty;
    listed = uncovered-Listed rule.key_patterns keys q (ground arith);
    in_budget = ground arith;
    in_rate = ground arith;
  }
    where
      nonempty : 1 ≤ length keys
      nonempty = is_empty-length keys (ground arith)
