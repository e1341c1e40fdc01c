-- ===== src/RateLimit.antt =====
-- server/config/ratelimit.py: the sliding window of `InMemoryRateLimiter`.
mod Window
mod Tests
use assen_platform.Common.{
  ℕ, suc, ◌+◌, ◌≤◌, ◌≡◌, refl, sym, ◌∙◌, Bool, true, false, ◌&&◌, List, [], ◌∷◌, ◌++◌, length, ltb,
  leb, arith, Bool-cases, if◌then◌else◌, inl, inr, Text, text_eq, text_eq_iff,
}
use mathlib.Core.Path.{subst}
use assen_platform.Common.Table.{All, total, count}

-- `self._hits`, with no hits under a key that it does not have.
abbrev pub Hits : Type 0
Hits = Text → List ℕ

-- `t >= now - window_seconds`
abbrev is_recent : ℕ → ℕ → ℕ → Bool
is_recent now window t = leb now (t + window)

unfoldable pub recent_hits : ℕ → ℕ → List ℕ → List ℕ
recent_hits now window [] = []
recent_hits now window (t ∷ ts) =
    let rest = recent_hits now window ts in if is_recent now window t then t ∷ rest else rest

-- `self._hits[key] = recent`
abbrev set_hits : Text → List ℕ → Hits → Hits
set_hits key recent hits other = if text_eq key other then recent else hits other

-- `InMemoryRateLimiter.allow`, at the time `now`.
unfoldable pub allow : ℕ → Text → ℕ → ℕ → Hits → Bool × Hits
unfolding recent_hits length
allow now key limit window hits =
    let recent = recent_hits now window (hits key) in
    if leb limit (length recent)
    then (false, set_hits key recent hits)
    else (true, set_hits key (recent ++ now ∷ []) hits)

-- A request of a client.
pub record Hit : Type 0 where
  pub at : ℕ
  pub key : Text

-- The hits that the limiter allows, the newest first, and its state after.
unfoldable pub allow_all : ℕ → ℕ → List Hit → Hits → List Hit × Hits
allow_all limit window [] hits = ([], hits)
allow_all limit window (h ∷ requests) hits =
    let before = allow_all limit window requests hits in
    let answer = allow h.at h.key limit window before.1 in
    ((if answer.0 then h ∷ before.0 else before.0), answer.1)

-- The requests, the newest first, came one after the other.
unfoldable pub InOrder : List Hit → Type 0
InOrder [] = Unit
InOrder (h ∷ requests) = All (λ g. g.at ≤ h.at) requests × InOrder requests

-- The hit is of the key, and stands in the window that ends at `now`.
abbrev pub falls_in : Text → ℕ → ℕ → Hit → Bool
falls_in key window now h = text_eq h.key key && (leb h.at now && leb now (h.at + window))
