-- ===== src/Core/Session/Replies.antt =====
-- Reply suppression, and what a lost connection leaves.
use penguin_redis.Prelude.{
  ℕ, ◌^◌, ◌<◌, ◌≡◌, ◌↔◌, refl, ◌∙◌, true, false, List, [], ◌∷◌, arith, ok, All, to_ascii_uppercase,
}
use penguin_redis.Core.Session.{
  SessionState, on, off, skip_next, verb, observe_command, note_queue_error, arm, Verb,
  reset_connection, client, hello, select, expect_reply_for_next, may_probe, on_disconnect,
  needs_disclosure, new, no_tx,
}
use penguin_redis.Core.Session.Runs.{Event, command, queue_error, step, run, verb_is, sets_replies}

arm-reply_mode :
    (v : Verb) (argv args : List (List ℕ)) (s : SessionState)
    → sets_replies v ≡ false
    → (arm v argv args s).reply_mode ≡ s.reply_mode
unfolding arm
arm-reply_mode hello argv args s h = ground arith
arm-reply_mode select argv [] s h = refl
arm-reply_mode select argv (a ∷ args) s h = ground arith
arm-reply_mode client argv args s h = cc
arm-reply_mode reset_connection argv args s h = cc
arm-reply_mode _ argv args s h = refl

step-reply_mode :
    (e : Event) (s : SessionState)
    → verb_is sets_replies e ≡ false
    → (step s e).reply_mode ≡ s.reply_mode
unfolding step observe_command note_queue_error
step-reply_mode (command []) s h = refl
step-reply_mode (command (name ∷ args)) s h =
    arm-reply_mode (verb (to_ascii_uppercase name)) (name ∷ args) args s h
step-reply_mode queue_error s h = refl

run-reply_mode :
    (es : List Event) (s : SessionState)
    → All (λ e. verb_is sets_replies e ≡ false) es
    → (run s es).reply_mode ≡ s.reply_mode
unfolding run
run-reply_mode [] s h = refl
run-reply_mode (e ∷ es) s h = run-reply_mode es (step s e) h.1 ∙ step-reply_mode e s h.0

suppressed :
    (s : SessionState)
    → s.reply_mode ≡ off
    → (expect_reply_for_next s ≡ (s, false)) × (¬ (may_probe s ≡ ok tt))
unfolding expect_reply_for_next may_probe
suppressed s h = (ground arith, λ e. ground arith)

-- While replies are off, whatever commands follow that are neither `CLIENT` nor `RESET`, no reply
-- is expected, asking does not change the session, and no background request may be injected.
pub off_stays_off :
    (s : SessionState) (es : List Event)
    → s.reply_mode ≡ off
    → All (λ e. verb_is sets_replies e ≡ false) es
    → (expect_reply_for_next (run s es) ≡ (run s es, false)) × (¬ (may_probe (run s es) ≡ ok tt))
off_stays_off s es m h = suppressed (run s es) (run-reply_mode es s h ∙ m)

-- A skipped reply is skipped once: no reply is expected for the next command and one is for the
-- command behind it; the first asking sets the mode back and changes nothing else, the second
-- changes nothing.
pub skip_once :
    (s : SessionState)
    → s.reply_mode ≡ skip_next
    → let (t, first) = expect_reply_for_next s in
      (first ≡ false) × (t ≡ record s { reply_mode = on }) × (expect_reply_for_next t ≡ (t, true))
unfolding expect_reply_for_next
skip_once s h = ground arith

-- A lost connection leaves a session like a fresh one but for its two epochs, which both moved
-- on, so that nothing observed before counts; a probe is allowed; and the losses are disclosed
-- exactly when a transaction, a subscription or a reply mode was lost.
pub on_disconnect_fresh :
    (s : SessionState)
    → s.identity_epoch < 2 ^ 64
    → s.scope_epoch < 2 ^ 64
    → let (t, losses) = on_disconnect s in
      (record t { identity_epoch = 0; scope_epoch = 0 } ≡ new)
      × (¬ (t.identity_epoch ≡ s.identity_epoch))
      × (¬ (t.scope_epoch ≡ s.scope_epoch))
      × (may_probe t ≡ ok tt)
      × ((needs_disclosure losses ≡ false)
          ↔ ((s.tx ≡ no_tx) × (s.subscribed ≡ false) × (s.reply_mode ≡ on)))
unfolding on_disconnect new may_probe needs_disclosure
on_disconnect_fresh s h k =
    (refl, ground arith, ground arith, refl, (λ e. ground arith, λ e. ground arith))
