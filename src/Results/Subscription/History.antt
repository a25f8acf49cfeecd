-- ===== src/Results/Subscription/History.antt =====
-- The record of a subscription after all the messages that arrived.
use penguin_redis.Prelude.{
  ℕ, ◌+◌, ◌*◌, ◌^◌, ◌≤◌, ◌<◌, ◌≡◌, ◌↔◌, refl, sym, ap, ◌∙◌, true, some, List, [], ◌∷◌, ◌++◌, ltb,
  if◌then◌else◌, length, arith, length-append, append_assoc, append-nil,
}
use penguin_redis.Results.Subscription.{Message, Subscription, push_all, with_limits, is_complete}
use penguin_redis.Results.Subscription.Accounts.{Valid, with_limits-Valid, accepted, push-Pushed}

module _ (message_size : ℕ) where
  -- What the messages `ms` leave of a record.
  record Recorded (ms : List Message) (s t : Subscription) : Type 0 where
    valid : Valid message_size 0 t
    gone : List Message
    split : s.entries ++ accepted message_size s.max_bytes ms ≡ gone ++ t.entries
    received : t.received ≡ s.received + length ms

  accepted-cons :
      (limit : ℕ) (m : Message) (ms : List Message)
      → accepted message_size limit (m ∷ ms)
        ≡ accepted message_size limit (m ∷ []) ++ accepted message_size limit ms
  unfolding accepted
  accepted-cons limit m ms = ground arith

  push_all-Recorded :
      (ms : List Message) (s : Subscription)
      → Valid message_size (length ms) s
      → (t : Subscription) × (push_all message_size s ms ≡ some t) × Recorded ms s t
  unfolding push_all
  push_all-Recorded [] s v = (
    s,
    refl,
    record {
      valid = v;
      gone = [];
      split = unfold accepted in append-nil s.entries;
      received = omega arith;
    },
  )
  push_all-Recorded (m ∷ ms) s v =
      let (t, e, p) = push-Pushed message_size (length ms) m s v in
      let (u, f, r) = push_all-Recorded ms t p.valid in
      let new : List Message = accepted message_size s.max_bytes (m ∷ []) in
      let later : List Message = accepted message_size s.max_bytes ms in
      let limit : accepted message_size t.max_bytes ms ≡ later =
        ap (λ b. accepted message_size b ms) p.max_bytes in
      (
        u,
        rw (e, push_all) f,
        record {
          valid = r.valid;
          gone = p.gone ++ r.gone;
          split =
              ap (λ l. s.entries ++ l) (accepted-cons s.max_bytes m ms)
              ∙ sym (append_assoc s.entries new later)
              ∙ ap (λ l. l ++ later) p.split
              ∙ append_assoc p.gone t.entries later
              ∙ ap (λ l. p.gone ++ (t.entries ++ l)) (sym limit)
              ∙ ap (λ l. p.gone ++ l) r.split
              ∙ sym (append_assoc p.gone r.gone u.entries);
          received = omega (arith, r.received, p.received);
        },
      )

  -- From fresh limits, with a byte limit that no sum with it wraps.
  abbrev pub WithinWords : ℕ → List Message → Type 0
  WithinWords b ms = (2 * (if ltb b 1 then 1 else b) < 2 ^ 64) × (length ms < 2 ^ 64)

  recorded :
      (a b : ℕ) (ms : List Message)
      → WithinWords b ms
      → (t : Subscription) × (push_all message_size (with_limits a b) ms ≡ some t)
        × Recorded ms (with_limits a b) t
  recorded a b ms h =
      push_all-Recorded ms (with_limits a b)
        (with_limits-Valid message_size (length ms) a b h.0 h.1)

  -- A record takes any messages without a loop running on, and then holds its two bounds, counts
  -- its bytes exactly, and has each message that arrived either retained or in one counter.
  pub push_all-Valid :
      (a b : ℕ) (ms : List Message)
      → WithinWords b ms
      → (t : Subscription) × (push_all message_size (with_limits a b) ms ≡ some t)
        × Valid message_size 0 t
        × (t.received ≡ length ms)
  push_all-Valid a b ms h =
      let (t, e, r) = recorded a b ms h in
      (t, e, r.valid, r.received ∙ unfold with_limits in (omega arith))

  -- What is retained is the newest: the end of the sequence of the messages that fit the buffer.
  pub push_all_newest :
      (a b : ℕ) (ms : List Message)
      → WithinWords b ms
      → (t : Subscription) × (push_all message_size (with_limits a b) ms ≡ some t)
        × ((gone : List Message) × (accepted message_size (with_limits a b).max_bytes ms
              ≡ gone ++ t.entries))
  push_all_newest a b ms h =
      let (t, e, r) = recorded a b ms h in (t, e, (r.gone, unfold with_limits in r.split))

  length_zero : (ms : List Message) → length ms ≡ 0 → ms ≡ []
  length_zero [] h = refl
  length_zero (m ∷ ms) h = absurd (omega arith)

  length-accepted :
      (limit : ℕ) (ms : List Message) → length (accepted message_size limit ms) ≤ length ms
  unfolding accepted
  length-accepted limit [] = omega arith
  length-accepted limit (m ∷ ms) = ground (arith, length-accepted limit ms)

  accepted_all :
      (limit : ℕ) (ms : List Message)
      → length (accepted message_size limit ms) ≡ length ms
      → accepted message_size limit ms ≡ ms
  unfolding accepted
  accepted_all limit [] h = refl
  accepted_all limit (m ∷ ms) h = ground (arith, accepted_all limit ms, length-accepted limit ms)

  all_counted :
      (t : Subscription)
      → Valid message_size 0 t
      → (is_complete t ≡ true) ↔ (length t.entries ≡ t.received)
  unfolding is_complete
  all_counted t v =
      (λ c. ground (arith, v.accounted, v.left), λ e. ground (arith, v.accounted, v.left))

  forth :
      (t : Subscription) (limit : ℕ) (ms : List Message)
      → Valid message_size 0 t
      → t.received ≡ length ms
      → (gone : List Message) → accepted message_size limit ms ≡ gone ++ t.entries
      → is_complete t ≡ true
      → t.entries ≡ ms
  forth t limit ms v arrived gone split c =
      let full : length t.entries ≡ length ms = (all_counted t v).0 c ∙ arrived in
      let parts = ap length split ∙ length-append gone t.entries in
      let none_gone : gone ≡ [] =
        length_zero gone (omega (arith, parts, length-accepted limit ms)) in
      ap (λ g. g ++ t.entries) (sym none_gone)
      ∙ sym split
      ∙ accepted_all limit ms (omega (arith, parts, length-accepted limit ms))

  back :
      (t : Subscription) (ms : List Message)
      → Valid message_size 0 t
      → t.received ≡ length ms
      → t.entries ≡ ms
      → is_complete t ≡ true
  back t ms v arrived same = (all_counted t v).1 (ap length same ∙ sym arrived)

  -- `is_complete` answers exactly whether the record holds every message that arrived.
  pub is_complete_iff :
      (a b : ℕ) (ms : List Message)
      → WithinWords b ms
      → (t : Subscription) × (push_all message_size (with_limits a b) ms ≡ some t)
        × ((is_complete t ≡ true) ↔ (t.entries ≡ ms))
  is_complete_iff a b ms h =
      let (t, e, r) = recorded a b ms h in
      let arrived : t.received ≡ length ms = r.received ∙ unfold with_limits in (omega arith) in
      let split : accepted message_size (with_limits a b).max_bytes ms ≡ r.gone ++ t.entries =
        unfold with_limits in r.split in
      (
        t,
        e,
        (
          forth t (with_limits a b).max_bytes ms r.valid arrived r.gone split,
          back t ms r.valid arrived,
        ),
      )
