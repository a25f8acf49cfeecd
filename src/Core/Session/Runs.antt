-- ===== src/Core/Session/Runs.antt =====
-- What happens to a session: the commands the user issued, and the queue errors noted.
use penguin_redis.Prelude.{ℕ, Bool, true, false, List, [], ◌∷◌, to_ascii_uppercase}
use penguin_redis.Core.Session.{
  SessionState, Verb, hello, auth, reset_connection, multi, exec, discard, client, other, verb,
  has_auth, observe_command, note_queue_error,
}

pub data Event : Type 0 where
  command : List (List ℕ) → Event
  queue_error : Event

unfoldable pub step : SessionState → Event → SessionState
step s (command argv) = observe_command s argv
step s queue_error = note_queue_error s

unfoldable pub run : SessionState → List Event → SessionState
run s [] = s
run s (e ∷ es) = run (step s e) es

-- The verb of a command; an empty command has no name, and does nothing that a verb does.
abbrev pub verb_is : (Verb → Bool) → Event → Bool
verb_is p (command []) = false
verb_is p (command (name ∷ args)) = p (verb (to_ascii_uppercase name))
verb_is p queue_error = false

-- The commands that leave a transaction, or begin one anew.
abbrev pub ends_tx : Verb → Bool
ends_tx exec = true
ends_tx discard = true
ends_tx reset_connection = true
ends_tx _ = false

abbrev pub begins_tx : Verb → Bool
begins_tx multi = true
begins_tx _ = false

-- The commands that touch the reply mode.
abbrev pub sets_replies : Verb → Bool
sets_replies client = true
sets_replies reset_connection = true
sets_replies _ = false

-- The commands of no arm of their own, which a transaction queues.
abbrev pub is_other : Verb → Bool
is_other other = true
is_other _ = false

-- Whether a command changes the authenticated identity.
unfoldable pub changes_identity : List (List ℕ) → Bool
changes_identity [] = false
changes_identity (name ∷ args) = elim (verb (to_ascii_uppercase name)) [
  | auth ↦ true
  | reset_connection ↦ true
  | hello ↦ has_auth (name ∷ args)
  | _ ↦ false
]
