-- ===== src/Repl/History/Origins.antt =====
-- Where the entries of the history (crates/pr-repl/src/history.rs) come from.
use penguin_redis.Prelude.{
  ℕ, zero, suc, ◌≡◌, refl, sym, ap, ◌∙◌, Bool, true, false, Option, none, some, List, [], ◌∷◌, ◌==◌,
  if◌then◌else◌, map, take, drop, bytes_eq, bytes_eq_sound, All, All-append, arith,
}
use penguin_redis.Protocol.Value.{ℤ}
use penguin_redis.Repl.Redaction.{RedactionLevel, redact}
use penguin_redis.Repl.History.{
  Scope, Entry, Row, History, open_in_memory, as_i64, where_rows, newest_first, in_scope, deleted,
  clear, prune, parts_of, insert_row, record_entry, entry_of, recent,
}

-- A call that changes the table.
pub data Call : Type 0 where
  recorded : Scope → List (List ℕ) → RedactionLevel → ℤ → Call
  cleared : Option (List ℕ) → Call
  pruned : ℤ → ℕ → Call

pub data Among {A : Type 0} (a : A) : List A → Type 0 where
  first : {as' : List A} → Among a (a ∷ as')
  later : {b : A} {as' : List A} → Among a as' → Among a (b ∷ as')

abbrev pub SameScope : Scope → Scope → Type 0
SameScope s t =
    (s.profile_uuid ≡ t.profile_uuid)
    × (as_i64 s.identity_epoch ≡ as_i64 t.identity_epoch)
    × (s.db ≡ t.db)

in_scope-same :
    (s : Scope) (r : Row)
    → in_scope s r ≡ true
    → (r.profile_uuid ≡ s.profile_uuid)
      × (r.identity_epoch ≡ as_i64 s.identity_epoch)
      × (r.db ≡ s.db)
unfolding in_scope
in_scope-same s r e =
    let profile : bytes_eq r.profile_uuid s.profile_uuid ≡ true = ground arith in
    let epoch : (r.identity_epoch == as_i64 s.identity_epoch) ≡ true = ground arith in
    let number : (r.db == s.db) ≡ true = ground arith in
    (bytes_eq_sound r.profile_uuid s.profile_uuid profile, ground arith, ground arith)

module _ (P : Row → Type 0) where
  All-where_rows : (f : Row → Bool) (rs : List Row) → All P rs → All P (where_rows f rs)
  unfolding where_rows
  All-where_rows f [] h = tt
  All-where_rows f (r ∷ rs) h = by_test (f r) (All-where_rows f rs h.1)
    where
      by_test :
          (c : Bool)
          → All P (where_rows f rs)
          → All P (if c then r ∷ where_rows f rs else where_rows f rs)
      by_test true k = (h.0, k)
      by_test false k = k

  All-drop : (n : ℕ) (rs : List Row) → All P rs → All P (drop n rs)
  All-drop zero rs h = h
  All-drop (suc n) [] h = tt
  All-drop (suc n) (r ∷ rs) h = All-drop n rs h.1

  All-take : (n : ℕ) (rs : List Row) → All P rs → All P (take n rs)
  All-take zero rs h = tt
  All-take (suc n) [] h = tt
  All-take (suc n) (r ∷ rs) h = (h.0, All-take n rs h.1)

  All-newest_first : (rs : List Row) → All P rs → All P (newest_first rs)
  unfolding newest_first
  All-newest_first [] h = tt
  All-newest_first (r ∷ rs) h =
      All-append P (newest_first rs) (r ∷ []) (All-newest_first rs h.1) (h.0, tt)

-- A row that is kept passes the test, and what holds of all.
All-tested :
    (P : Row → Type 0) (f : Row → Bool) (rs : List Row)
    → All P rs
    → All (λ r. (f r ≡ true) × P r) (where_rows f rs)
unfolding where_rows
All-tested P f [] h = tt
All-tested P f (r ∷ rs) h = by_test (f r) refl (All-tested P f rs h.1)
  where
    Kept : Row → Type 0
    Kept q = (f q ≡ true) × P q

    by_test :
        (c : Bool)
        → f r ≡ c
        → All Kept (where_rows f rs)
        → All Kept (if c then r ∷ where_rows f rs else where_rows f rs)
    by_test true e k = ((e, h.0), k)
    by_test false e k = k

module _ (blake3 upper_text : List ℕ → List ℕ) (encode : List (List ℕ) → List ℕ) where
  unfoldable pub perform : Call → History → History
  unfolding record_entry clear prune
  perform (recorded s argv level at_ms) h =
      (record_entry blake3 upper_text encode h s argv level at_ms).1
  perform (cleared p) h = (clear h p).1
  perform (pruned t n) h = (prune h t n).1

  unfoldable pub perform_all : List Call → History → History
  unfolding perform
  perform_all [] h = h
  perform_all (c ∷ cs) h = perform_all cs (perform c h)

  -- The entry was made of a command that was recorded in that scope.
  pub data FromCall (cs : List Call) (s : Scope) (e : Entry) : Type 0 where
    from_call :
        (t : Scope) (argv : List (List ℕ)) (level : RedactionLevel)
        → Among (recorded t argv level e.at_ms) cs
        → SameScope t s
        → e.parts ≡ redact blake3 upper_text argv level
        → FromCall cs s e

  -- The same of a row.
  data Stored (cs : List Call) (r : Row) : Type 0 where
    stored :
        (t : Scope) (argv : List (List ℕ)) (level : RedactionLevel)
        → Among (recorded t argv level r.at_ms) cs
        → (r.profile_uuid ≡ t.profile_uuid)
          × (r.identity_epoch ≡ as_i64 t.identity_epoch)
          × (r.db ≡ t.db)
        → r.parts ≡ encode (redact blake3 upper_text argv level)
        → Stored cs r

  record_entry-Stored :
      (cs : List Call) (h : History) (s : Scope) (argv : List (List ℕ)) (level : RedactionLevel)
      (at_ms : ℤ)
      → Among (recorded s argv level at_ms) cs
      → All (Stored cs) h.rows
      → All (Stored cs) (record_entry blake3 upper_text encode h s argv level at_ms).1.rows
  unfolding record_entry
  record_entry-Stored cs h s argv level at_ms m k =
      by_parts (redact blake3 upper_text argv level) refl
    where
      by_parts :
          (ps : List (List ℕ))
          → redact blake3 upper_text argv level ≡ ps
          → All (Stored cs) (insert_row encode h s ps at_ms).1.rows
      by_parts [] e = k
      by_parts (p ∷ ps) e =
          All-append (Stored cs) h.rows _ k
            (stored s argv level m (refl, refl, refl) (ap encode (sym e)), tt)

  perform-Stored :
      (cs : List Call) (c : Call) (h : History)
      → Among c cs
      → All (Stored cs) h.rows
      → All (Stored cs) (perform c h).rows
  unfolding perform clear prune deleted
  perform-Stored cs (recorded s argv level at_ms) h m k =
      record_entry-Stored cs h s argv level at_ms m k
  perform-Stored cs (cleared none) h m k = tt
  perform-Stored cs (cleared (some p)) h m k = All-where_rows (Stored cs) _ h.rows k
  perform-Stored cs (pruned t n) h m k =
      All-drop (Stored cs) _ _ (All-where_rows (Stored cs) _ h.rows k)

  perform_all-Stored :
      (cs rest : List Call) (h : History)
      → ((c : Call) → Among c rest → Among c cs)
      → All (Stored cs) h.rows
      → All (Stored cs) (perform_all rest h).rows
  unfolding perform_all
  perform_all-Stored cs [] h sub k = k
  perform_all-Stored cs (c ∷ rest) h sub k =
      perform_all-Stored cs rest (perform c h) (λ d m. sub d (later m))
        (perform-Stored cs c h (sub c first) k)

  abbrev Shown : List Call → Scope → Row → Type 0
  Shown cs s r = (in_scope s r ≡ true) × Stored cs r

  module _ (decode : List ℕ → Option (List (List ℕ)))
      (decode-encode : (ps : List (List ℕ)) → decode (encode ps) ≡ some ps) where
    entry_of-FromCall :
        (cs : List Call) (s : Scope) (r : Row)
        → in_scope s r ≡ true
        → Stored cs r
        → FromCall cs s (entry_of decode r)
    unfolding entry_of in_scope parts_of
    entry_of-FromCall cs s r e (stored t argv level m o p) =
        let same = in_scope-same s r e in
        from_call t argv level m (sym o.0 ∙ same.0, sym o.1 ∙ same.1, sym o.2 ∙ same.2)
          (rw (p, decode-encode (redact blake3 upper_text argv level)) refl)

    entries-FromCall :
        (cs : List Call) (s : Scope) (rs : List Row)
        → All (Shown cs s) rs
        → All (FromCall cs s) (map (entry_of decode) rs)
    entries-FromCall cs s [] h = tt
    entries-FromCall cs s (r ∷ rs) h =
        (entry_of-FromCall cs s r h.0.0 h.0.1, entries-FromCall cs s rs h.1)

    -- Whatever calls were made from an empty history, an entry that `recent` shows for a scope was
    -- recorded in that scope, with the same profile, database and identity epoch as it is stored,
    -- and is what the redaction left of that command, when texts are read back as they were written.
    pub recent-FromCall :
        (cs : List Call) (s : Scope) (limit : ℕ)
        → All (FromCall cs s) (recent decode (perform_all cs open_in_memory) s limit)
    unfolding recent
    recent-FromCall cs s limit = entries-FromCall cs s _ (
        All-take (Shown cs s) _ _ (
          All-newest_first (Shown cs s) _ (
            All-tested (Stored cs) (in_scope s) _
              (perform_all-Stored cs cs open_in_memory (λ c m. m) tt))))
