-- ===== src/RateLimit/Window.antt =====
-- server/config/ratelimit.py: no window has more allowed requests than its limit.
use assen_platform.Common.{
  ℕ, suc, ◌+◌, ◌≤◌, ◌≡◌, refl, sym, ◌∙◌, Bool, true, false, ◌&&◌, List, [], ◌∷◌, ◌++◌, length, leb,
  arith, Bool-cases, if◌then◌else◌, inl, inr, Text, text_eq, text_eq_iff,
}
use mathlib.Core.Path.{subst}
use assen_platform.Common.Table.{All, count}
use assen_platform.RateLimit.{Hits, Hit, InOrder, falls_in, recent_hits, allow, allow_all}

module _ (limit window : ℕ) where
  -- What the limiter keeps of a key, after requests up to `now`: of the allowed hits, as many from any
  -- time on that a later window can start at; and no window has had more than the limit.
  record Keeps (key : Text) (now : ℕ) (allowed : List Hit) (kept : List ℕ) : Type 0 where
    past : All (λ h. h.at ≤ now) allowed
    same :
        (later : ℕ)
        → now ≤ later
        → count (λ h. text_eq h.key key && leb later (h.at + window)) allowed
          ≡ count (λ t. leb later (t + window)) kept
    bounded : (end : ℕ) → count (falls_in key window end) allowed ≤ limit

  length-recent_hits :
      (now : ℕ) (ts : List ℕ)
      → length (recent_hits now window ts) ≡ count (λ t. leb now (t + window)) ts
  unfolding recent_hits length
  length-recent_hits now [] = refl
  length-recent_hits now (t ∷ ts) = ground (arith, length-recent_hits now ts)

  count-recent_hits :
      (now later : ℕ) (ts : List ℕ)
      → now ≤ later
      → count (λ t. leb later (t + window)) (recent_hits now window ts)
        ≡ count (λ t. leb later (t + window)) ts
  unfolding recent_hits
  count-recent_hits now later [] h = refl
  count-recent_hits now later (t ∷ ts) h = ground (arith, count-recent_hits now later ts)

  recent_from :
      (key : Text) (now end : ℕ) (allowed : List Hit)
      → now ≤ end
      → count (falls_in key window end) allowed
        ≤ count (λ h. text_eq h.key key && leb now (h.at + window)) allowed
  recent_from key now end [] h = omega arith
  recent_from key now end (g ∷ allowed) h = ground (arith, recent_from key now end allowed h)

  count-append : (p : ℕ → Bool) (xs ys : List ℕ) → count p (xs ++ ys) ≡ count p xs + count p ys
  count-append p [] ys = omega arith
  count-append p (x ∷ xs) ys = omega (arith, count-append p xs ys)

  All_later :
      (now later : ℕ) (hs : List Hit)
      → now ≤ later
      → All (λ h. h.at ≤ now) hs
      → All (λ h. h.at ≤ later) hs
  All_later now later [] l a = tt
  All_later now later (h ∷ hs) l a = (omega (arith, a.0), All_later now later hs l a.1)

  Keeps-later :
      (key : Text) (now later : ℕ) (allowed : List Hit) (kept : List ℕ)
      → now ≤ later
      → Keeps key now allowed kept
      → Keeps key later allowed kept
  Keeps-later key now later allowed kept l k = record {
    past = All_later now later allowed l k.past;
    same = λ t h. k.same t (omega arith);
    bounded = k.bounded;
  }

  Keeps-recent_hits :
      (key : Text) (now : ℕ) (allowed : List Hit) (kept : List ℕ)
      → Keeps key now allowed kept
      → Keeps key now allowed (recent_hits now window kept)
  Keeps-recent_hits key now allowed kept k = record {
    past = k.past;
    same = λ t h. k.same t h ∙ sym (count-recent_hits now t kept h);
    bounded = k.bounded;
  }

  Keeps-cons_other :
      (key : Text) (h : Hit) (allowed : List Hit) (kept : List ℕ)
      → text_eq h.key key ≡ false
      → Keeps key h.at allowed kept
      → Keeps key h.at (h ∷ allowed) kept
  Keeps-cons_other key h allowed kept e k = record {
    past = (omega arith, k.past);
    same = λ t l. ground (arith, k.same t l);
    bounded = λ end. ground (arith, k.bounded end);
  }

  Keeps-cons :
      (key : Text) (h : Hit) (allowed : List Hit) (kept : List ℕ)
      → text_eq h.key key ≡ true
      → Keeps key h.at allowed kept
      → suc (length (recent_hits h.at window kept)) ≤ limit
      → Keeps key h.at (h ∷ allowed) (recent_hits h.at window kept ++ h.at ∷ [])
  Keeps-cons key h allowed kept e k room = record {
    past = (omega arith, k.past);
    same = λ t l. ground (
      arith,
      k.same t l,
      count-append (λ u. leb t (u + window)) (recent_hits h.at window kept) (h.at ∷ []),
      count-recent_hits h.at t kept l,
    );
    bounded = λ end. ground (
      arith,
      k.bounded end,
      recent_from key h.at end allowed,
      k.same h.at,
      length-recent_hits h.at kept,
    );
  }

  allow-Keeps :
      (key : Text) (now : ℕ) (h : Hit) (allowed : List Hit) (hits : Hits)
      → now ≤ h.at
      → Keeps key now allowed (hits key)
      → Keeps key h.at
          (if (allow h.at h.key limit window hits).0 then h ∷ allowed else allowed)
          ((allow h.at h.key limit window hits).1 key)
  unfolding allow
  allow-Keeps key now h allowed hits l k =
      let later = Keeps-later key now h.at allowed (hits key) l k in
      let full = leb limit (length (recent_hits h.at window (hits h.key))) in
      elim (Bool-cases (text_eq h.key key)) [
        | inr e ↦ elim (Bool-cases full) [
          | inl f ↦ rw (f, e) later
          | inr f ↦ rw (f, e) (Keeps-cons_other key h allowed (hits key) e later)
        ]
        | inl e ↦
            let same : key ≡ h.key = sym ((text_eq_iff h.key key).0 e) in
            let own : Keeps key h.at allowed (hits h.key) =
              subst (λ (t : Text). Keeps key h.at allowed (hits t)) same later in
            elim (Bool-cases full) [
              | inl f ↦ rw (f, e) (Keeps-recent_hits key h.at allowed (hits h.key) own)
              | inr f ↦ rw (f, e) (Keeps-cons key h allowed (hits h.key) e own (ground arith))
            ]
      ]

  latest : List Hit → ℕ
  latest [] = 0
  latest (h ∷ requests) = h.at

  latest_le :
      (h : Hit) (requests : List Hit) → All (λ g. g.at ≤ h.at) requests → latest requests ≤ h.at
  unfolding latest
  latest_le h [] a = omega arith
  latest_le h (g ∷ requests) a = a.0

  allow_all-Keeps :
      (key : Text) (requests : List Hit)
      → InOrder requests
      → Keeps key
          (latest requests)
          (allow_all limit window requests (λ k. [])).0
          ((allow_all limit window requests (λ k. [])).1 key)
  unfolding allow_all InOrder latest
  allow_all-Keeps key [] o = record { past = tt; same = λ t h. refl; bounded = λ end. omega arith }
  allow_all-Keeps key (h ∷ requests) o =
      allow-Keeps key (latest requests) h (allow_all limit window requests (λ k. [])).0
        (allow_all limit window requests (λ k. [])).1 (latest_le h requests o.0)
        (allow_all-Keeps key requests o.1)

  -- From an empty limiter, of requests that come one after the other, whatever their clients, no
  -- window of any client ever has more than the limit of allowed requests.
  pub allow_all-bounded :
      (key : Text) (requests : List Hit) (end : ℕ)
      → InOrder requests
      → count (falls_in key window end) (allow_all limit window requests (λ k. [])).0 ≤ limit
  allow_all-bounded key requests end o = (allow_all-Keeps key requests o).bounded end
