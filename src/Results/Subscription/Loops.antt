-- ===== src/Results/Subscription/Loops.antt =====
-- The two loops of `push` end, evict from the front, and make room.
use penguin_redis.Prelude.{
  ℕ, zero, suc, ◌+◌, ◌*◌, ◌^◌, ◌≤◌, ◌<◌, ◌≡◌, refl, ap, ◌∙◌, inl, inr, Bool, true, false, some,
  List, [], ◌∷◌, ◌++◌, ltb, length, u64, arith, Bool-cases,
}
use penguin_redis.Results.Subscription.{
  Message, Subscription, weight, evict_front, evict, trim_count, trim_bytes,
}

module _ (message_size : ℕ) where
  -- The bytes that the messages cost.
  abbrev pub weights : List Message → ℕ
  weights [] = 0
  weights (m ∷ ms) = weight message_size m + weights ms

  -- The state of `push` around its loops: the bytes are counted exactly, every message that
  -- arrived is counted once, the new one apart, and no sum wraps.
  pub record Exact (s : Subscription) : Type 0 where
    pub counted : s.bytes ≡ weights s.entries
    pub accounted :
        s.dropped.by_count + s.dropped.by_bytes + s.dropped.oversized + length s.entries + 1
        ≡ s.received
    pub left : s.received < 2 ^ 64
    pub within : s.bytes ≤ s.max_bytes
    pub words : 2 * s.max_bytes < 2 ^ 64

  -- What a loop leaves.
  pub record Trimmed (s t : Subscription) : Type 0 where
    pub gone : List Message
    pub split : s.entries ≡ gone ++ t.entries
    pub exact : Exact t
    pub max_entries : t.max_entries ≡ s.max_entries
    pub max_bytes : t.max_bytes ≡ s.max_bytes
    pub received : t.received ≡ s.received

  Trimmed-refl : (s : Subscription) → Exact s → Trimmed s s
  Trimmed-refl s x = record {
    gone = [];
    split = refl;
    exact = x;
    max_entries = refl;
    max_bytes = refl;
    received = refl;
  }

  -- The state behind one eviction.
  abbrev behind : Bool → Message → List Message → Subscription → Subscription
  behind by_count old rest s = evict_front message_size by_count (old ∷ rest) s

  Exact-behind :
      (by_count : Bool) (old : Message) (rest : List Message) (s : Subscription)
      → s.entries ≡ old ∷ rest
      → Exact s
      → Exact (behind by_count old rest s)
  unfolding evict_front
  Exact-behind true old rest s e x = ground (arith, ap length e, ap weights e)
  Exact-behind false old rest s e x = ground (arith, ap length e, ap weights e)

  Trimmed-behind :
      (by_count : Bool) (old : Message) (rest : List Message) (s t : Subscription)
      → s.entries ≡ old ∷ rest
      → Trimmed (behind by_count old rest s) t
      → Trimmed s t
  unfolding evict_front
  Trimmed-behind by_count old rest s t e v = record {
    gone = old ∷ v.gone;
    split = e ∙ ap (λ ms. old ∷ ms) v.split;
    exact = v.exact;
    max_entries = v.max_entries;
    max_bytes = v.max_bytes;
    received = v.received;
  }

  evict-behind :
      (by_count : Bool) (old : Message) (rest : List Message) (s : Subscription)
      → s.entries ≡ old ∷ rest
      → evict message_size by_count s ≡ behind by_count old rest s
  unfolding evict
  evict-behind by_count old rest s e = ap (λ ms. evict_front message_size by_count ms s) e

  pub trim_count-Trimmed :
      (f : ℕ) (ms : List Message) (s : Subscription)
      → s.entries ≡ ms
      → length ms < f
      → Exact s
      → 0 < s.max_entries
      → (t : Subscription) × (trim_count message_size f s ≡ some t)
        × Trimmed s t
        × (length t.entries + 1 ≤ s.max_entries)
  unfolding trim_count evict_front
  trim_count-Trimmed zero ms s e l x h = absurd (omega arith)
  trim_count-Trimmed (suc f) [] s e l x h =
      (s, ground (arith, ap length e), Trimmed-refl s x, omega (arith, ap length e))
  trim_count-Trimmed (suc f) (old ∷ rest) s e l x h =
      elim (Bool-cases (ltb s.max_entries (length s.entries + 1))) [
        | inl full ↦
            let (t, p, v, room) =
              trim_count-Trimmed f rest (behind true old rest s) refl (omega arith)
                (Exact-behind true old rest s e x) h in
            (
              t,
              rw (full, trim_count)
                  (ap (trim_count message_size f) (evict-behind true old rest s e) ∙ p),
              Trimmed-behind true old rest s t e v,
              room,
            )
        | inr room ↦ (s, rw (room, trim_count) refl, Trimmed-refl s x, ground arith)
      ]

  pub trim_bytes-Trimmed :
      (f w : ℕ) (ms : List Message) (s : Subscription)
      → s.entries ≡ ms
      → length ms < f
      → Exact s
      → w ≤ s.max_bytes
      → (t : Subscription) × (trim_bytes message_size f w s ≡ some t)
        × Trimmed s t
        × (t.bytes + w ≤ s.max_bytes)
  unfolding trim_bytes evict_front
  trim_bytes-Trimmed zero w ms s e l x h = absurd (omega arith)
  trim_bytes-Trimmed (suc f) w [] s e l x h = (
    s,
    ground (arith, ap weights e, x.counted),
    Trimmed-refl s x,
    omega (arith, ap weights e, x.counted),
  )
  trim_bytes-Trimmed (suc f) w (old ∷ rest) s e l x h =
      elim (Bool-cases (ltb s.max_bytes (u64 (s.bytes + w)))) [
        | inl full ↦
            let (t, p, v, room) =
              trim_bytes-Trimmed f w rest (behind false old rest s) refl (omega arith)
                (Exact-behind false old rest s e x) h in
            (
              t,
              rw (full, trim_bytes)
                  (rw (e, trim_bytes)
                    (ap (trim_bytes message_size f w) (evict-behind false old rest s e) ∙ p)),
              Trimmed-behind false old rest s t e v,
              room,
            )
        | inr room ↦
            (s, rw (room, trim_bytes) refl, Trimmed-refl s x, ground (arith, x.within, x.words))
      ]
