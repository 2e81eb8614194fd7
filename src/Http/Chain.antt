-- ===== src/Http/Chain.antt =====
-- internal/middleware/chain.go
use mathlib.Core.List.{reverse, foldl, reverse-cons, foldl-append}
use microgate.Base.{List, [], ◌∷◌, ◌≡◌, refl, ap}
use microgate.Http.{Handler, Middleware}

module _ {S : Type 0} where
  -- The loop runs from the last middleware to the first.
  unfoldable pub chain : Handler S → List (Middleware S) → Handler S
  chain handler ms = foldl (λ h m. m h) handler (reverse ms)

  -- A(B(C(handler))): what the middleware are in the order in which a request meets them.
  abbrev pub nested : Handler S → List (Middleware S) → Handler S
  nested handler [] = handler
  nested handler (m ∷ ms) = m (nested handler ms)

  -- The loop gives A(B(C(handler))) for the middleware A, B, C: a request meets them in list order.
  pub chain_lem :
      (handler : Handler S) (ms : List (Middleware S)) → chain handler ms ≡ nested handler ms
  unfolding chain
  chain_lem handler [] = refl
  chain_lem handler (m ∷ ms) = rw (reverse-cons, foldl-append) (ap m (chain_lem handler ms))
