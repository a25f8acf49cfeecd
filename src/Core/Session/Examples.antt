-- ===== src/Core/Session/Examples.antt =====
-- Sessions, and the witnesses of the results on them.
use penguin_redis.Prelude.{ℕ, ◌≡◌, refl, List, [], ◌∷◌, codes, false, upper}
use penguin_redis.Prelude.Result.{ok, err}
use penguin_redis.Core.Session.{
  SessionState, resp2, verb, new, may_probe, queuing, no_tx, off, skip_next,
  probe_inside_transaction, observe_command, verb,
}
use penguin_redis.Core.Session.Runs.{Event, command, queue_error, step, run}
use penguin_redis.Core.Session.Transactions.{
  Happening, event, reply_awaited, connection_lost, live, react, multi-may_probe,
}

abbrev multi : List (List ℕ)
multi = codes "multi" ∷ []

abbrev set_key : Event
set_key = command (codes "SET" ∷ codes "k" ∷ codes "v" ∷ [])

abbrev exec_tx : Event
exec_tx = command (codes "EXEC" ∷ [])

-- A second `MULTI` starts the count and the error again.
nested_multi :
    (run new (command multi ∷ set_key ∷ queue_error ∷ command multi ∷ [])).tx ≡ queuing 0 false
unfolding run step observe_command
nested_multi = refl

abbrev queued_set : List Happening
queued_set = event set_key ∷ reply_awaited ∷ event queue_error ∷ []

multi-may_probe_example :
    may_probe (live (step new (command multi)) queued_set) ≡ err probe_inside_transaction
unfolding verb upper
multi-may_probe_example = multi-may_probe new multi queued_set refl (refl, (refl, (refl, tt)))

-- The loss of the connection ends the transaction.
lost-may_probe : may_probe (live new (event (command multi) ∷ connection_lost ∷ [])) ≡ ok tt
unfolding live react may_probe verb upper step observe_command
lost-may_probe = refl

abbrev log_in : List Event
log_in = command (codes "AUTH" ∷ codes "p" ∷ []) ∷ set_key ∷ []

abbrev silent : SessionState
silent = record {
  protocol = resp2;
  db = 0;
  reply_mode = off;
  tx = no_tx;
  subscribed = false;
  identity_epoch = 1;
  scope_epoch = 1;
}

abbrev skipping : SessionState
skipping = record silent { reply_mode = skip_next }
