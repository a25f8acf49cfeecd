-- ===== src/Core/Session.antt =====
-- crates/pr-core/src/session.rs: the state of one connection.
--
-- A command is its argument bytes. `observe_command` matches on the upper-case name: `Verb` has
-- one constructor for each arm of that match, and `verb` is the choice of the arm.
-- `str::parse::<u32>` is the standard library's: `parse_u32` below is its documented grammar,
-- an optional `+` and decimal digits, within the range. A non-ASCII byte is no digit, so the
-- check of UTF-8 before it changes nothing. Counters keep their wrap-around.
pub mod Runs
pub mod Epochs
pub mod Transactions
pub mod Replies
mod Examples
use penguin_redis.Prelude.{
  digits, ℕ, suc, ◌+◌, ◌-◌, ◌*◌, ◌%◌, ◌^◌, Bool, true, false, not, ◌&&◌, ◌||◌, Option, none, some,
  List, [], ◌∷◌, Result, ok, err, ltb, leb, ◌==◌, if◌then◌else◌, length, get_elem?, u64, codes,
  bytes_eq, to_ascii_uppercase, eq_ignore_ascii_case, upper,
}

pub data Protocol : Type 0 where
  resp2 resp3 : Protocol

pub data ReplyMode : Type 0 where
  on off skip_next : ReplyMode

pub data TxState : Type 0 where
  no_tx : TxState
  watching : ℕ → TxState
  queuing : ℕ → Bool → TxState

pub data SessionRefusal : Type 0 where
  probe_inside_transaction probe_while_reply_suppressed no_transaction : SessionRefusal

pub record SessionState : Type 0 where
  pub protocol : Protocol
  pub db : ℕ
  pub reply_mode : ReplyMode
  pub tx : TxState
  pub subscribed : Bool
  pub identity_epoch : ℕ
  pub scope_epoch : ℕ

unfoldable pub new : SessionState
new = record {
  protocol = resp2;
  db = 0;
  reply_mode = on;
  tx = no_tx;
  subscribed = false;
  identity_epoch = 0;
  scope_epoch = 0;
}

pub is_queuing : TxState → Bool
is_queuing (queuing n e) = true
is_queuing _ = false

pub is_on : ReplyMode → Bool
is_on on = true
is_on _ = false

unfoldable pub may_probe : SessionState → Result SessionRefusal (Unit {0})
unfolding is_queuing is_on
may_probe s =
    if is_queuing s.tx
    then err probe_inside_transaction
    else if not (is_on s.reply_mode)
    then err probe_while_reply_suppressed
    else ok tt

pub expect_reply : ReplyMode → SessionState → SessionState × Bool
expect_reply on s = (s, true)
expect_reply off s = (s, false)
expect_reply skip_next s = (record s { reply_mode = on }, false)

unfoldable pub expect_reply_for_next : SessionState → SessionState × Bool
unfolding expect_reply
expect_reply_for_next s = expect_reply s.reply_mode s

unfoldable pub bump_identity : SessionState → SessionState
bump_identity s = record s {
  identity_epoch = u64 (s.identity_epoch + 1);
  scope_epoch = u64 (s.scope_epoch + 1);
}

unfoldable pub reset : SessionState → SessionState
unfolding new
reset s = record new {
  identity_epoch = u64 (s.identity_epoch + 1);
  scope_epoch = u64 (s.scope_epoch + 1);
}

-- The arms of the match in `observe_command`.
pub data Verb : Type 0 where
  hello auth reset_connection select multi exec discard watch unwatch : Verb
  subscribe unsubscribe client other : Verb

unfoldable pub verb : List ℕ → Verb
unfolding bytes_eq
verb name =
    if bytes_eq name (codes "HELLO")
    then hello
    else if bytes_eq name (codes "AUTH")
    then auth
    else if bytes_eq name (codes "RESET")
    then reset_connection
    else if bytes_eq name (codes "SELECT")
    then select
    else if bytes_eq name (codes "MULTI")
    then multi
    else if bytes_eq name (codes "EXEC")
    then exec
    else if bytes_eq name (codes "DISCARD")
    then discard
    else if bytes_eq name (codes "WATCH")
    then watch
    else if bytes_eq name (codes "UNWATCH")
    then unwatch
    else if bytes_eq name (codes "SUBSCRIBE")
    then subscribe
    else if bytes_eq name (codes "PSUBSCRIBE")
    then subscribe
    else if bytes_eq name (codes "SSUBSCRIBE")
    then subscribe
    else if bytes_eq name (codes "UNSUBSCRIBE")
    then unsubscribe
    else if bytes_eq name (codes "PUNSUBSCRIBE")
    then unsubscribe
    else if bytes_eq name (codes "SUNSUBSCRIBE")
    then unsubscribe
    else if bytes_eq name (codes "CLIENT")
    then client
    else other

below_2_32 : Option ℕ → Option ℕ
below_2_32 none = none
below_2_32 (some n) = if ltb n (2 ^ 32) then some n else none

unfoldable pub parse_u32 : List ℕ → Option ℕ
unfolding digits below_2_32
parse_u32 [] = none
parse_u32 (c ∷ []) = if c == b'+' then none else below_2_32 (digits 0 (c ∷ []))
parse_u32 (c ∷ d ∷ ds) =
    if c == b'+' then below_2_32 (digits 0 (d ∷ ds)) else below_2_32 (digits 0 (c ∷ d ∷ ds))

pub has_auth : List (List ℕ) → Bool
unfolding eq_ignore_ascii_case
has_auth [] = false
has_auth (a ∷ rest) = eq_ignore_ascii_case a (codes "AUTH") || has_auth rest

-- `HELLO`: the version is the first argument, and without one the protocol stays.
hello_protocol : List (List ℕ) → Protocol → Protocol
unfolding bytes_eq
hello_protocol [] p = p
hello_protocol (v ∷ rest) p = if bytes_eq v (codes "3") then resp3 else resp2

observe_hello : List (List ℕ) → List (List ℕ) → SessionState → SessionState
unfolding hello_protocol has_auth bump_identity
observe_hello argv args s =
    let s' = record s { protocol = hello_protocol args s.protocol } in
    if has_auth argv then bump_identity s' else s'

select_db : Option ℕ → SessionState → SessionState
select_db none s = s
select_db (some n) s = record s { db = n; scope_epoch = u64 (s.scope_epoch + 1) }

observe_select : List (List ℕ) → SessionState → SessionState
unfolding select_db parse_u32
observe_select [] s = s
observe_select (v ∷ rest) s = select_db (parse_u32 v) s

watch_keys : TxState → ℕ → TxState
watch_keys no_tx n = watching n
watch_keys tx n = tx

unwatch_keys : TxState → TxState
unwatch_keys (watching n) = no_tx
unwatch_keys tx = tx

reply_mode_of : List ℕ → ReplyMode → ReplyMode
unfolding bytes_eq
reply_mode_of m old =
    if bytes_eq m (codes "OFF")
    then off
    else if bytes_eq m (codes "SKIP")
    then skip_next
    else if bytes_eq m (codes "ON")
    then on
    else old

observe_client : List (List ℕ) → SessionState → SessionState
unfolding reply_mode_of eq_ignore_ascii_case upper
observe_client (sub ∷ m ∷ rest) s =
    if eq_ignore_ascii_case sub (codes "REPLY")
    then record s { reply_mode = reply_mode_of (to_ascii_uppercase m) s.reply_mode }
    else s
observe_client _ s = s

-- Any other command inside `MULTI` is queued.
queue : TxState → TxState
queue (queuing n had_error) = queuing (u64 (n + 1)) had_error
queue tx = tx

-- The arm of one verb: `argv` is the whole command, `args` what follows the name.
pub arm : Verb → List (List ℕ) → List (List ℕ) → SessionState → SessionState
unfolding observe_hello observe_select watch_keys unwatch_keys observe_client queue bump_identity
    reset
arm hello argv args s = observe_hello argv args s
arm auth argv args s = bump_identity s
arm reset_connection argv args s = reset s
arm select argv args s = observe_select args s
arm multi argv args s = record s { tx = queuing 0 false }
arm exec argv args s = record s { tx = no_tx }
arm discard argv args s = record s { tx = no_tx }
arm watch argv args s = record s { tx = watch_keys s.tx (length args) }
arm unwatch argv args s = record s { tx = unwatch_keys s.tx }
arm subscribe argv args s = record s { subscribed = true }
arm unsubscribe argv args s = record s { subscribed = false }
arm client argv args s = observe_client args s
arm other argv args s = record s { tx = queue s.tx }

unfoldable pub observe_command : SessionState → List (List ℕ) → SessionState
unfolding arm verb upper
observe_command s [] = s
observe_command s (name ∷ args) = arm (verb (to_ascii_uppercase name)) (name ∷ args) args s

note_error : TxState → TxState
note_error (queuing n had_error) = queuing n true
note_error tx = tx

unfoldable pub note_queue_error : SessionState → SessionState
unfolding note_error
note_queue_error s = record s { tx = note_error s.tx }

pub record ReconnectLosses : Type 0 where
  pub had_transaction : Bool
  pub had_subscription : Bool
  pub reply_mode_was : ReplyMode
  pub db_was : ℕ
  pub protocol_was : Protocol

pub in_tx : TxState → Bool
in_tx no_tx = false
in_tx _ = true

unfoldable pub on_disconnect : SessionState → SessionState × ReconnectLosses
unfolding in_tx new
on_disconnect s = (
  record new { identity_epoch = u64 (s.identity_epoch + 1); scope_epoch = u64 (s.scope_epoch + 1) },
  record {
    had_transaction = in_tx s.tx;
    had_subscription = s.subscribed;
    reply_mode_was = s.reply_mode;
    db_was = s.db;
    protocol_was = s.protocol;
  },
)

unfoldable pub needs_disclosure : ReconnectLosses → Bool
unfolding is_on
needs_disclosure l = l.had_transaction || l.had_subscription || not (is_on l.reply_mode_was)
