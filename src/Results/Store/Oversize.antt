-- ===== src/Results/Store/Oversize.antt =====
-- `oversize_action`: when the user may be asked.
use penguin_redis.Prelude.{ℕ, ◌<◌, ◌≡◌, ◌↔◌, true, false, some, arith}
use penguin_redis.Results.Store.{
  Budget, OutputContext, oversize_declared, oversize_action, prompt, stream_only,
}

-- The user is asked about a reply exactly when the session is interactive, nothing has been
-- printed, and the reply declared a length, the one asked about, over the limit for one; and a
-- session that is not interactive always streams.
pub oversize_action-prompt_iff :
    (ctx : OutputContext) (budget : Budget) (n : ℕ)
    → ((oversize_action ctx budget ≡ prompt n) ↔ (
        (ctx.interactive ≡ true)
        × (ctx.output_started ≡ false)
        × (ctx.declared_len ≡ some n)
        × (budget.single_bytes < n)))
      × ((oversize_action ctx budget ≡ stream_only) ↔ (ctx.interactive ≡ false))
unfolding oversize_action oversize_declared
oversize_action-prompt_iff ctx budget n = ground arith
