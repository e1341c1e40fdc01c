-- ===== src/RateLimit/Tests.antt =====
-- Runs of the limiter, two requests in ten seconds.
use assen_platform.Common.{ℕ, ◌≤◌, ◌≡◌, refl, List, [], ◌∷◌, arith, Text, text_eq}
use assen_platform.Common.Table.{count}
use assen_platform.RateLimit.{Hit, InOrder, falls_in, allow, allow_all, recent_hits}
use assen_platform.RateLimit.Window.{allow_all-bounded}

abbrev client : Text
client = 97 ∷ []

abbrev other_client : Text
other_client = 98 ∷ []

abbrev hit : ℕ → Text → Hit
hit at key = record { at = at; key = key }

-- The third request of the client comes too soon, the fourth after the window of the first.
abbrev requests : List Hit
requests =
    hit 111 client ∷ hit 105 client ∷ hit 104 other_client ∷ hit 103 client ∷ hit 100 client ∷ []

allowed_run :
    (allow_all 2 10 requests (λ k. [])).0
    ≡ hit 111 client ∷ hit 104 other_client ∷ hit 103 client ∷ hit 100 client ∷ []
unfolding allow_all allow recent_hits text_eq
allowed_run = refl

requests-InOrder : InOrder requests
unfolding InOrder
requests-InOrder = omega arith

allow_all-bounded_example : count (falls_in client 10 110) (allow_all 2 10 requests (λ k. [])).0 ≤ 2
allow_all-bounded_example = allow_all-bounded 2 10 client requests 110 requests-InOrder
