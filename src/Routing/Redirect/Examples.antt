-- ===== src/Routing/Redirect/Examples.antt =====
-- Redirects on concrete replies.
use penguin_redis.Prelude.{◌≡◌, refl, true, false, none, some, ◌∷◌, ◌++◌, codes, arith, decimal}
use penguin_redis.Routing.Redirect.{parse_redirect, is_whitespace}
use penguin_redis.Routing.Redirect.Printed.{redirect_text, parse_redirect-plain}

moved-parses :
    parse_redirect (codes "MOVED 3999 127.0.0.1:6381")
    ≡ some (record { ask = false; slot = 3999; host = codes "127.0.0.1"; port = 6381 })
unfolding parse_redirect
moved-parses = refl

ask-parses :
    parse_redirect (codes "ASK 3999 [::1]:6381")
    ≡ some (record { ask = true; slot = 3999; host = codes "::1"; port = 6381 })
unfolding parse_redirect
ask-parses = refl

other-refused : parse_redirect (codes "ERR unknown command") ≡ none
unfolding parse_redirect
other-refused = refl

port-refused : parse_redirect (codes "MOVED 3999 h:65536") ≡ none
unfolding parse_redirect
port-refused = refl

parse_redirect-plain_example :
    parse_redirect (redirect_text false 3999 (codes "node" ++ (b':' ∷ decimal 5 6381)))
    ≡ some (record { ask = false; slot = 3999; host = codes "node"; port = 6381 })
unfolding is_whitespace
parse_redirect-plain_example =
    parse_redirect-plain false 3999 (codes "node") 6381 (omega arith) (omega arith)
      (refl, (refl, (refl, (refl, tt)))) refl
