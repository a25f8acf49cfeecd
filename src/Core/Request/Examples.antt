-- ===== src/Core/Request/Examples.antt =====
-- Canonical bytes of two small requests, and the witness of the result on them.
use penguin_redis.Prelude.{ℕ, List, [], ◌∷◌, codes}
use penguin_redis.Core.Request.{CommandRequest, new, user, agent, read, write}

abbrev get_key : List (List ℕ)
get_key = codes "GET" ∷ codes "k" ∷ []

abbrev by_user : CommandRequest
by_user = record {
  args = get_key;
  origin = user;
  effects = read;
  budget = (new [] user read).budget;
}

abbrev by_agent : CommandRequest
by_agent = record by_user { origin = agent; effects = write }
