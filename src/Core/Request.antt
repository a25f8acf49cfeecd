-- ===== src/Core/Request.antt =====
-- crates/pr-core/src/request.rs: a command on its way to the kernel.
--
-- A length is a `usize` that `as u64` leaves alone. `display` is not modelled: it is text for
-- people, rendered by `SafeText`.
pub mod Canonical
mod Examples
use penguin_redis.Prelude.{
  ℕ, ◌*◌, Bool, true, false, ◌||◌, List, [], ◌∷◌, ◌++◌, length, to_le_bytes,
}

pub data RequestOrigin : Type 0 where
  user tui recipe agent pipe discovery : RequestOrigin

unfoldable pub requires_human_approval_for_writes : RequestOrigin → Bool
requires_human_approval_for_writes agent = true
requires_human_approval_for_writes pipe = true
requires_human_approval_for_writes _ = false

pub record Effects : Type 0 where
  pub reads_data : Bool
  pub writes_data : Bool
  pub consumes : Bool
  pub blocks : Bool
  pub admin : Bool
  pub destructive : Bool
  pub unknown : Bool

-- `Effects::default()`, and the three ready-made classifications.
abbrev pub no_effects : Effects
no_effects = record {
  reads_data = false;
  writes_data = false;
  consumes = false;
  blocks = false;
  admin = false;
  destructive = false;
  unknown = false;
}

abbrev pub unknown_effects : Effects
unknown_effects = record no_effects { unknown = true }

abbrev pub read : Effects
read = record no_effects { reads_data = true }

abbrev pub write : Effects
write = record no_effects { writes_data = true }

unfoldable pub mutates : Effects → Bool
mutates e = e.writes_data || e.consumes || e.admin || e.destructive || e.unknown

pub record RequestBudget : Type 0 where
  pub max_retained_bytes : ℕ
  pub timeout_ms : ℕ
  pub max_depth : ℕ

abbrev pub default_budget : RequestBudget
default_budget = record {
  max_retained_bytes = 16 * 1024 * 1024;
  timeout_ms = 30_000;
  max_depth = 64;
}

pub record CommandRequest : Type 0 where
  pub args : List (List ℕ)
  pub origin : RequestOrigin
  pub effects : Effects
  pub budget : RequestBudget

unfoldable pub new : List (List ℕ) → RequestOrigin → Effects → CommandRequest
new args origin effects = record {
  args = args;
  origin = origin;
  effects = effects;
  budget = default_budget;
}

-- Each argument behind its length.
unfoldable pub canonical_args : List (List ℕ) → List ℕ
canonical_args [] = []
canonical_args (a ∷ rest) = to_le_bytes (length a) ++ (a ++ canonical_args rest)

unfoldable pub canonical_bytes : CommandRequest → List ℕ
canonical_bytes req = to_le_bytes (length req.args) ++ canonical_args req.args
