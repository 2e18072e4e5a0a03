-- ===== src/Telegram/Post/Waits.antt =====
-- How many requests a send makes.
use property_search.Prelude.{ℕ, zero, suc, ◌+◌, ◌≡◌, refl, false, arith, List, [], ◌∷◌, ◌++◌}
use property_search.Telegram.Post.{Exchange, envelope, post, requests}

-- A run of answers that ask for a wait.
unfoldable pub rate_limited : ℕ → List Exchange
rate_limited zero = []
rate_limited (suc n) = envelope 429 false 1 false ∷ rate_limited n

-- The send repeats its request for as long as the API asks for a wait that is not interrupted: after
-- any number of such answers it makes one more request at least, and returns what it would return had
-- these answers not been there.
pub post-rate_limited :
    (n : ℕ) (rest : List Exchange)
    → (post (rate_limited n ++ rest) ≡ post rest)
      × (requests (rate_limited n ++ rest) ≡ n + requests rest)
unfolding post requests rate_limited
post-rate_limited zero rest = (refl, omega arith)
post-rate_limited (suc n) rest =
    ((post-rate_limited n rest).0, omega (arith, (post-rate_limited n rest).1))
