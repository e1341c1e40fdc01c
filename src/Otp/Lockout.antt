-- ===== src/Otp/Lockout.antt =====
-- server/config/otp.py: a code is good for one success, or a bounded number of failures.
use assen_platform.Common.{
  ℕ, suc, ◌+◌, ◌≤◌, ◌<◌, ◌≡◌, refl, sym, ◌∙◌, Bool, true, false, Option, none, some, List, [], ◌∷◌,
  ltb, leb, arith, Bool-cases, Option-cases, if◌then◌else◌, ap, ◌⊎◌, inl, inr, Text, text_eq,
  text_eq_iff,
}
use mathlib.Core.Path.{subst}
use assen_platform.Common.Table.{All, count}
use assen_platform.Otp.{
  OtpEntry, MockOtpSender, Entries, Guess, InOrderFrom, is_wrong, is_right, fresh_entry, send,
  compare_digest, is_match, is_mismatch, verify_entry, verify_armed, verify, verify_all,
}

module _ (s : MockOtpSender) where
  -- No later guess can succeed.
  IsDead : ℕ → OtpEntry → Type 0
  IsDead now e =
      (e.consumed ≡ true)
      ⊎ (e.issued_at + s.ttl_seconds < now)
      ⊎ ((until : ℕ) × (e.locked_until ≡ some until) × (e.issued_at + s.ttl_seconds < until))

  -- The entry of a number that got a code at the time `start`, after some guesses up to `now`.
  record IsArmed (phone : Text) (start now right wrong : ℕ) (e : OtpEntry) : Type 0 where
    code : e.code ≡ s.code_for phone
    issued : e.issued_at ≡ start
    begun : start ≤ now
    counted :
        IsDead now e
        ⊎ ((right ≡ 0)
            × (e.attempts ≡ wrong)
            × (wrong < s.max_attempts)
            × (e.consumed ≡ false)
            × (e.locked_until ≡ none))

  verify_entry-IsDead :
      (now later : ℕ) (code : Text) (e : OtpEntry)
      → now ≤ later
      → IsDead now e
      → (verify_entry s later code e ≡ (some false, e)) × IsDead later e
  unfolding verify_entry IsDead
  verify_entry-IsDead now later code e l (inl c) = (ground arith, inl c)
  verify_entry-IsDead now later code e l (inr (inl x)) = (ground arith, inr (inl (omega arith)))
  verify_entry-IsDead now later code e l (inr (inr (until, f, x))) =
      (ground arith, inr (inr (until, f, x)))

  verify_entry-IsArmed :
      (phone : Text) (start now later right wrong : ℕ) (code : Text) (e : OtpEntry)
      → s.ttl_seconds < s.lock_seconds
      → now ≤ later
      → IsArmed phone start now right wrong e
      → IsArmed phone start later
          (if is_match (compare_digest (s.code_for phone) code) then suc right else right)
          (if is_mismatch (compare_digest (s.code_for phone) code) then suc wrong else wrong)
          (verify_entry s later code e).1
  unfolding verify_entry IsDead
  verify_entry-IsArmed phone start now later right wrong code e longer l a = record {
    code = ground (arith, a.code);
    issued = ground (arith, a.issued);
    begun = omega (arith, a.begun);
    counted = elim a.counted [
      | inl dead ↦
          let (same, still) = verify_entry-IsDead now later code e l dead in
          inl (subst (λ (r : Option Bool × OtpEntry). IsDead later r.1) (sym same) still)
      | inr (none_right, attempts, few, open_code, unlocked) ↦
          elim (Bool-cases (ltb (e.issued_at + s.ttl_seconds) later)) [
            | inl expired ↦ inl (inr (inl (ground arith)))
            | inr live ↦ elim (Option-cases (compare_digest (s.code_for phone) code)) [
              | inl untold ↦
                  let raised : compare_digest e.code code ≡ none =
                    ap (λ (c : Text). compare_digest c code) a.code ∙ untold in
                  inr (ground arith, ground arith, ground arith, ground arith, ground arith)
              | inr (true, hit) ↦
                  let same : compare_digest e.code code ≡ some true =
                    ap (λ (c : Text). compare_digest c code) a.code ∙ hit in
                  inl (inl (ground arith))
              | inr (false, miss) ↦
                  let missed : compare_digest e.code code ≡ some false =
                    ap (λ (c : Text). compare_digest c code) a.code ∙ miss in
                  elim (Bool-cases (leb s.max_attempts (e.attempts + 1))) [
                    | inl last ↦ inl (
                        inr (
                          inr (
                            later + s.lock_seconds,
                            ground arith,
                            ground (arith, a.issued, a.begun),
                          )))
                    | inr more ↦
                        inr (ground arith, ground arith, ground arith, ground arith, ground arith)
                  ]
            ]
          ]
    ];
  }

  latest : ℕ → List Guess → ℕ
  latest start [] = start
  latest start (g ∷ guesses) = g.at

  latest_le :
      (start : ℕ) (g : Guess) (guesses : List Guess)
      → start ≤ g.at
      → All (λ h. h.at ≤ g.at) guesses
      → latest start guesses ≤ g.at
  unfolding latest
  latest_le start g [] l a = l
  latest_le start g (h ∷ guesses) l a = a.0

  verify_other :
      (now : ℕ) (phone other code : Text) (entries : Entries)
      → text_eq phone other ≡ false
      → (verify s now phone code entries).1 other ≡ entries other
  unfolding verify
  verify_other now phone other code entries h = elim (Option-cases (entries phone)) [
    | inl e ↦ ap (λ (o : Option OtpEntry). (verify_armed s now phone code entries o).1 other) e
    | inr (old, e) ↦
        ap (λ (o : Option OtpEntry). (verify_armed s now phone code entries o).1 other) e
        ∙ rw h refl
  ]

  verify_same :
      (now : ℕ) (phone other code : Text) (entries : Entries) (e : OtpEntry)
      → text_eq phone other ≡ true
      → entries other ≡ some e
      → (verify s now phone code entries).1 other ≡ some (verify_entry s now code e).1
  unfolding verify
  verify_same now phone other code entries e same h =
      let mine : entries phone ≡ some e = ap entries ((text_eq_iff phone other).0 same) ∙ h in
      ap (λ (o : Option OtpEntry). (verify_armed s now phone code entries o).1 other) mine
      ∙ rw same refl

  IsArmed-recount :
      (phone : Text) (start now : ℕ) (e : OtpEntry) (right right' wrong wrong' : ℕ)
      → right ≡ right'
      → wrong ≡ wrong'
      → IsArmed phone start now right wrong e
      → IsArmed phone start now right' wrong' e
  IsArmed-recount phone start now e right right' wrong wrong' p q a =
      subst (λ (k : ℕ). IsArmed phone start now right' k e) q
        (subst (λ (k : ℕ). IsArmed phone start now k wrong e) p a)

  IsDead-later : (now later : ℕ) (e : OtpEntry) → now ≤ later → IsDead now e → IsDead later e
  IsDead-later now later e l d = (verify_entry-IsDead now later [] e l d).1

  IsArmed-later :
      (phone : Text) (start now later right wrong : ℕ) (e : OtpEntry)
      → now ≤ later
      → IsArmed phone start now right wrong e
      → IsArmed phone start later right wrong e
  IsArmed-later phone start now later right wrong e l a = record {
    code = a.code;
    issued = a.issued;
    begun = omega (arith, a.begun);
    counted = elim a.counted [
      | inl dead ↦ inl (IsDead-later now later e l dead)
      | inr alive ↦ inr alive
    ];
  }

  IsArmed-verify_all :
      (phone : Text) (start : ℕ) (e : OtpEntry) (entries : Entries) (guesses : List Guess)
      → s.ttl_seconds < s.lock_seconds
      → entries phone ≡ some e
      → IsArmed phone start start 0 0 e
      → InOrderFrom start guesses
      → (e' : OtpEntry) × (verify_all s guesses entries phone ≡ some e')
        × IsArmed phone start
            (latest start guesses)
            (count (is_right s phone) guesses)
            (count (is_wrong s phone) guesses)
            e'
  unfolding verify_all InOrderFrom latest
  IsArmed-verify_all phone start e entries [] longer h a o = (e, h, a)
  IsArmed-verify_all phone start e entries (g ∷ guesses) longer h a o =
      let (e', found, armed) = IsArmed-verify_all phone start e entries guesses longer h a o.2 in
      let before = verify_all s guesses entries in
      let in_time = latest_le start g guesses o.0 o.1 in
      elim (Bool-cases (text_eq g.phone phone)) [
        | inr other ↦ (
          e',
          verify_other g.at g.phone phone g.code before other ∙ found,
          IsArmed-recount phone start g.at e' (count (is_right s phone) guesses)
              (count (is_right s phone) (g ∷ guesses)) (count (is_wrong s phone) guesses)
              (count (is_wrong s phone) (g ∷ guesses)) (ground arith) (ground arith)
              (IsArmed-later phone start (latest start guesses) g.at
                (count (is_right s phone) guesses) (count (is_wrong s phone) guesses) e' in_time
                armed),
        )
        | inl same ↦
            let mine : g.phone ≡ phone = (text_eq_iff g.phone phone).0 same in
            let step =
              verify_entry-IsArmed phone start (latest start guesses) g.at
                (count (is_right s phone) guesses) (count (is_wrong s phone) guesses) g.code e'
                longer in_time armed in
            (
              (verify_entry s g.at g.code e').1,
              verify_same g.at g.phone phone g.code before e' same found,
              IsArmed-recount phone start g.at (verify_entry s g.at g.code e').1
                  (if is_match (compare_digest (s.code_for phone) g.code)
                    then suc (count (is_right s phone) guesses)
                    else count (is_right s phone) guesses)
                  (count (is_right s phone) (g ∷ guesses))
                  (if is_mismatch (compare_digest (s.code_for phone) g.code)
                    then suc (count (is_wrong s phone) guesses)
                    else count (is_wrong s phone) guesses)
                  (count (is_wrong s phone) (g ∷ guesses)) (ground arith) (ground arith) step,
            )
      ]

  fresh-IsArmed :
      (phone : Text) (start : ℕ)
      → 1 ≤ s.max_attempts
      → IsArmed phone start start 0 0 (fresh_entry s start phone)
  fresh-IsArmed phone start h = record {
    code = refl;
    issued = refl;
    begun = omega arith;
    counted = inr (refl, refl, h, refl, refl);
  }

  -- Where a lock outlasts a code: after a code was sent, and any guesses in time order, those for
  -- other numbers between them, if one guess with the number's code or as many as the limit with
  -- another (of those that are ASCII, which the comparison asks for) have been made, every later
  -- guess for the number is refused until the next code is sent.
  pub verify_all-spent :
      (start : ℕ) (phone : Text) (entries sent : Entries) (guesses : List Guess) (g : Guess)
      → s.ttl_seconds < s.lock_seconds
      → 1 ≤ s.max_attempts
      → send s start phone entries ≡ some sent
      → InOrderFrom start (g ∷ guesses)
      → g.phone ≡ phone
      → (1 ≤ count (is_right s phone) guesses) ⊎ (s.max_attempts ≤ count (is_wrong s phone) guesses)
      → (verify s g.at g.phone g.code (verify_all s guesses sent)).0 ≡ some false
  unfolding send InOrderFrom verify
  verify_all-spent start phone entries sent guesses g longer some_try h o mine spent =
      let (e, found, armed) =
        IsArmed-verify_all phone start (fresh_entry s start phone) sent guesses longer
          (ground (arith, text_eq_iff phone phone, ap (λ (es : Entries). es phone)))
          (fresh-IsArmed phone start some_try) o.2 in
      let dead : IsDead (latest start guesses) e = elim armed.counted [
        | inl d ↦ d
        | inr alive ↦ absurd (elim spent [ inl x ↦ omega arith | inr x ↦ omega arith ])
      ] in
      let last =
        verify_entry-IsDead (latest start guesses) g.at g.code e (latest_le start g guesses o.0 o.1)
          dead in
      let before = verify_all s guesses sent in
      ap (λ (o' : Option OtpEntry). (verify_armed s g.at g.phone g.code before o').0)
        (ap before mine ∙ found)
      ∙ ap (λ (r : Option Bool × OtpEntry). r.0) last.0
