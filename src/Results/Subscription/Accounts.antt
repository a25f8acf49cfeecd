-- ===== src/Results/Subscription/Accounts.antt =====
-- A subscription after any messages: its bounds, its counters, and which messages it retains.
use penguin_redis.Prelude.{
  ℕ, suc, ◌+◌, ◌*◌, ◌^◌, ◌≤◌, ◌<◌, ◌≡◌, refl, sym, ap, ◌∙◌, inl, inr, some, List, [], ◌∷◌, ◌++◌,
  ltb, if◌then◌else◌, length, arith, Bool-cases, length-append, append_assoc, append-nil,
}
use penguin_redis.Results.Subscription.{
  Message, Subscription, weight, append_message, refuse, receive, push, with_limits,
}
use penguin_redis.Results.Subscription.Loops.{
  weights, Exact, Trimmed, trim_count-Trimmed, trim_bytes-Trimmed,
}

module _ (message_size : ℕ) where
  -- Between two calls: the bounds hold, the bytes are those of the messages retained, and every
  -- message that arrived is retained or counted once. `k` more messages may arrive.
  pub record Valid (k : ℕ) (s : Subscription) : Type 0 where
    pub counted : s.bytes ≡ weights message_size s.entries
    pub accounted :
        s.dropped.by_count + s.dropped.by_bytes + s.dropped.oversized + length s.entries
        ≡ s.received
    pub few : length s.entries ≤ s.max_entries
    pub within : s.bytes ≤ s.max_bytes
    pub some_entry : 0 < s.max_entries
    pub left : s.received + k < 2 ^ 64
    pub words : 2 * s.max_bytes < 2 ^ 64

  pub with_limits-Valid :
      (k a b : ℕ) → 2 * (if ltb b 1 then 1 else b) < 2 ^ 64 → k < 2 ^ 64 → Valid k (with_limits a b)
  unfolding with_limits
  with_limits-Valid k a b h l = ground arith

  weights-append :
      (xs ys : List Message)
      → weights message_size (xs ++ ys) ≡ weights message_size xs + weights message_size ys
  weights-append [] ys = omega arith
  weights-append (x ∷ xs) ys = omega (arith, weights-append xs ys)

  -- The messages that fit the buffer at all.
  unfoldable pub accepted : ℕ → List Message → List Message
  accepted limit [] = []
  accepted limit (m ∷ ms) =
      if ltb limit (weight message_size m) then accepted limit ms else m ∷ accepted limit ms

  -- What one `push` leaves: `new` is the message, or nothing if it is larger than the buffer.
  pub record Pushed (k : ℕ) (new : List Message) (s t : Subscription) : Type 0 where
    pub valid : Valid k t
    pub gone : List Message
    pub split : s.entries ++ new ≡ gone ++ t.entries
    pub max_bytes : t.max_bytes ≡ s.max_bytes
    pub received : t.received ≡ s.received + 1

  refuse-Pushed :
      (k : ℕ) (s : Subscription)
      → Valid (suc k) s
      → Pushed k [] s (refuse message_size (receive message_size s))
  unfolding refuse
  refuse-Pushed k s v = record {
    valid = ground (arith, v.counted, v.accounted, v.few, v.within, v.some_entry, v.left, v.words);
    gone = [];
    split = append-nil s.entries;
    max_bytes = refl;
    received = ground (arith, v.left);
  }

  Exact-receive :
      (k : ℕ) (s : Subscription) → Valid (suc k) s → Exact message_size (receive message_size s)
  Exact-receive k s v = ground (arith, v.counted, v.accounted, v.within, v.left, v.words)

  append-Pushed :
      (k : ℕ) (m : Message) (s t u : Subscription)
      → Valid (suc k) s
      → Trimmed message_size (receive message_size s) t
      → length t.entries + 1 ≤ s.max_entries
      → Trimmed message_size t u
      → u.bytes + weight message_size m ≤ s.max_bytes
      → Pushed k (m ∷ []) s (append_message message_size m u)
  unfolding append_message
  append-Pushed k m s t u v p n q b = record {
    valid = record {
      counted =
          omega (arith, q.exact.counted, weights-append u.entries (m ∷ []), p.max_bytes, v.words);
      accounted = omega (arith, q.exact.accounted, length-append u.entries (m ∷ []));
      few = omega (
        arith,
        length-append u.entries (m ∷ []),
        ap length q.split,
        length-append q.gone u.entries,
        p.max_entries,
        q.max_entries,
      );
      within = omega (arith, p.max_bytes, q.max_bytes, v.words);
      some_entry = omega (arith, v.some_entry, p.max_entries, q.max_entries);
      left = omega (arith, v.left, p.received, q.received);
      words = q.exact.words;
    };
    gone = p.gone ++ q.gone;
    split =
        ap (λ ms. ms ++ m ∷ [])
          (p.split ∙ ap (λ ms. p.gone ++ ms) q.split ∙ sym (append_assoc p.gone q.gone u.entries))
        ∙ append_assoc (p.gone ++ q.gone) u.entries (m ∷ []);
    max_bytes = q.max_bytes ∙ p.max_bytes;
    received = omega (arith, v.left, p.received, q.received);
  }

  pub push-Pushed :
      (k : ℕ) (m : Message) (s : Subscription)
      → Valid (suc k) s
      → (t : Subscription) × (push message_size s m ≡ some t)
        × Pushed k (accepted s.max_bytes (m ∷ [])) s t
  push-Pushed k m s v = elim (Bool-cases (ltb s.max_bytes (weight message_size m))) [
    | inl large ↦ (
      refuse message_size (receive message_size s),
      unfold push in rw (large, push) refl,
      unfold accepted in rw (large, accepted) (refuse-Pushed k s v),
    )
    | inr small ↦
        let n : ℕ = suc (length s.entries) in
        let (t, p, c, room) =
          trim_count-Trimmed message_size n s.entries (receive message_size s) refl (omega arith)
            (Exact-receive k s v) v.some_entry in
        let (u, q, d, space) =
          trim_bytes-Trimmed message_size n (weight message_size m) t.entries t refl
            (omega (arith, ap length c.split, length-append c.gone t.entries)) c.exact
            (ground (arith, c.max_bytes)) in
        (
          append_message message_size m u,
          unfold push in rw (small, push) (rw (p, push) (rw (q, push) refl)),
          unfold accepted in
              rw (small, accepted)
                (append-Pushed k m s t u v c room d (omega (arith, c.max_bytes, space))),
        )
  ]
