-- ===== src/Results/Store/Examples.antt =====
-- A small store, and the witnesses of the store's results.
use penguin_redis.Prelude.{
  some, true, false, ℕ, ◌≤◌, ◌≡◌, refl, ◌↔◌, ◌⊎◌, [], ◌∷◌, arith, codes, ◌==◌, if◌then◌else◌,
}
use penguin_redis.Prelude.Result.{ok, err}
use penguin_redis.Results.Store.{
  OutputContext, oversize_action, prompt, Budget, ResultStore, new, put, get, unknown, evicted,
  scope_expired, invalidate_scope,
}
use penguin_redis.Results.Store.Invariant.{Inv, new-Inv}
use penguin_redis.Results.Store.Put.{Placed, kept_as, put-Placed}
use penguin_redis.Results.Store.Keeps.{run, puts, invalidates, put-Inv}
use penguin_redis.Results.Store.History.{run-Inv, run-unknown_iff}
use penguin_redis.Results.Store.Answers.{get-put, get-put_old}
use penguin_redis.Results.Store.Scopes.{get-invalidate_scope}

-- Eight bytes in all, five for one result.
abbrev small : Budget
small = record { total_bytes = 8; single_bytes = 5 }

abbrev empty : ResultStore
unfolding new
empty = new small

empty-Inv : Inv empty
unfolding empty new
empty-Inv = new-Inv small (omega arith)

abbrev one : ResultStore
unfolding put
one = (put empty (codes "abcde") 3).0

one-Inv : Inv one
unfolding empty one put
one-Inv = put-Inv empty (codes "abcde") 3 empty-Inv (omega arith)

-- The second result of five bytes drives out the first.
first_evicted : get (put one (codes "fghij") 3).0 1 3 ≡ err evicted
unfolding get put empty
first_evicted = refl

put-Placed_example :
    Placed one (codes "fghij") 3 (put one (codes "fghij") 3).0
    × ((put one (codes "fghij") 3).1 ≡ one.next_id)
unfolding put empty
put-Placed_example =
    put-Placed one (codes "fghij") 3 one-Inv (omega arith) (omega arith) (omega arith)

get-put_example :
    get (put one (codes "fgh") 3).0 (put one (codes "fgh") 3).1 4
    ≡ (if 3 == 4 then ok (kept_as one.next_id (codes "fgh") 3) else err scope_expired)
unfolding one empty
get-put_example = get-put one (codes "fgh") 3 4 one-Inv (omega arith) (omega arith) (omega arith)

one_found : get one 1 3 ≡ ok (kept_as 1 (codes "abcde") 3)
unfolding get one empty
one_found = refl

get-put_old_example :
    (get (put one (codes "fgh") 3).0 1 3 ≡ ok (kept_as 1 (codes "abcde") 3))
    ⊎ (get (put one (codes "fgh") 3).0 1 3 ≡ err evicted)
unfolding one empty
get-put_old_example =
    get-put_old one (codes "fgh") 3 1 3 (kept_as 1 (codes "abcde") 3) one-Inv (omega arith)
      one_found

get-invalidate_scope_example :
    get (invalidate_scope one 4).0 1 3
    ≡ (if 3 == 4 then ok (kept_as 1 (codes "abcde") 3) else err evicted)
get-invalidate_scope_example =
    get-invalidate_scope one 4 1 3 (kept_as 1 (codes "abcde") 3) one-Inv one_found

run-Inv_example :
    Inv (run (new small) (puts (codes "abcde") 3 ∷ puts (codes "fghij") 3 ∷ invalidates 4 ∷ []))
run-Inv_example =
    run-Inv small (puts (codes "abcde") 3 ∷ puts (codes "fghij") 3 ∷ invalidates 4 ∷ [])
      (omega arith) (omega arith)

abbrev second : ℕ
second = 2

run-unknown_iff_example :
    (get (run (new small) (puts (codes "abcde") 3 ∷ invalidates 4 ∷ [])) second 3 ≡ err unknown) ↔ (
      (second ≡ 0)
      ⊎ ((run (new small) (puts (codes "abcde") 3 ∷ invalidates 4 ∷ [])).next_id ≤ second))
run-unknown_iff_example =
    run-unknown_iff small (puts (codes "abcde") 3 ∷ invalidates 4 ∷ []) second 3 (omega arith)
      (omega arith)

-- A budget for all that is smaller than the budget for one.
abbrev narrow : Budget
narrow = record { total_bytes = 3; single_bytes = 5 }

abbrev asking : OutputContext
asking = record { interactive = true; declared_len = some 6; output_started = false }

asked : oversize_action asking small ≡ prompt 6
unfolding oversize_action
asked = refl
