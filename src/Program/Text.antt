-- ===== src/Program/Text.antt =====
-- `random_string` (project/main.c): what it writes, and where.
use log_heap_pmem.Base.{
  ℕ, zero, suc, ◌+◌, ◌%◌, ◌≤◌, ◌<◌, ◌≡◌, ◌≢◌, ◌⊎◌, refl, arith, ◌∙◌, sym, subst,
}
use native.Mathlib.Decide.{ℕ_discrete}
use log_heap_pmem.Types.{write}
use log_heap_pmem.Program.{chars, random_chars, random_string}

-- A letter or a digit in ASCII.
abbrev pub IsAlphanumeric : ℕ → Type 0
IsAlphanumeric b = ((97 ≤ b) × (b ≤ 122)) ⊎ (((65 ≤ b) × (b ≤ 90)) ⊎ ((48 ≤ b) × (b ≤ 57)))

chars-IsAlphanumeric : (i : ℕ) → i < 62 → IsAlphanumeric (chars i)
unfolding chars
chars-IsAlphanumeric i lt = ground arith

module _ (rand : ℕ → ℕ) where
  write-here : (dest : ℕ → ℕ) (i x : ℕ) → write dest i x i ≡ x
  unfolding write
  write-here dest i x = ground arith

  write-elsewhere : (dest : ℕ → ℕ) (i j x : ℕ) → i ≢ j → write dest i x j ≡ dest j
  unfolding write
  write-elsewhere dest i j x ne = ground arith

  random_chars-below :
      (n i : ℕ) (dest : ℕ → ℕ) (j : ℕ) → j < i → random_chars rand n i dest j ≡ dest j
  unfolding random_chars
  random_chars-below zero i dest j lt = refl
  random_chars-below (suc n) i dest j lt =
      random_chars-below n (suc i) _ j (omega (arith, lt))
      ∙ write-elsewhere dest i j _ (λ e. omega (arith, lt, e))

  random_chars-above :
      (n i : ℕ) (dest : ℕ → ℕ) (j : ℕ) → i + n ≤ j → random_chars rand n i dest j ≡ dest j
  unfolding random_chars
  random_chars-above zero i dest j le = refl
  random_chars-above (suc n) i dest j le =
      random_chars-above n (suc i) _ j (omega (arith, le))
      ∙ write-elsewhere dest i j _ (λ e. omega (arith, le, e))

  random_chars-IsAlphanumeric :
      (n i : ℕ) (dest : ℕ → ℕ) (j : ℕ)
      → i ≤ j
      → j < i + n
      → IsAlphanumeric (random_chars rand n i dest j)
  unfolding random_chars
  random_chars-IsAlphanumeric zero i dest j le lt = absurd (omega (arith, le, lt))
  random_chars-IsAlphanumeric (suc n) i dest j le lt = elim (ℕ_discrete i j) [
    | yes here ↦
        let x = chars (rand i % 62) in
        let e =
          random_chars-below n (suc i) (write dest i x) i (omega arith) ∙ write-here dest i x in
        subst (λ (k : ℕ). IsAlphanumeric (random_chars rand n (suc i) (write dest i x) k)) here
          (subst IsAlphanumeric (sym e) (chars-IsAlphanumeric (rand i % 62) (omega arith)))
    | no other ↦
        random_chars-IsAlphanumeric n (suc i) _ j (omega (arith, le, other)) (omega (arith, lt))
  ]

  -- Whatever `rand` returns, `random_string` writes nothing at or behind the size; in a buffer of
  -- `suc n` bytes the first `n` are letters or digits, and the last one is NUL.
  pub random_string-bounds :
      (dest : ℕ → ℕ) (size : ℕ)
      → ((j : ℕ) → size ≤ j → random_string rand dest size j ≡ dest j)
        × ((n : ℕ)
            → size ≡ suc n
            → (random_string rand dest size n ≡ 0)
              × ((j : ℕ) → j < n → IsAlphanumeric (random_string rand dest size j)))
  unfolding random_string
  random_string-bounds dest zero = (λ j le. refl, λ n e. absurd (omega (arith, e)))
  random_string-bounds dest (suc size) =
      let filled = random_chars rand size 0 dest in
      (
        λ j le.
            write-elsewhere filled size j 0 (λ e. omega (arith, le, e))
            ∙ random_chars-above size 0 dest j (omega (arith, le)),
        λ n e.
            let same : size ≡ n = omega (arith, e) in
            (
              subst (λ (k : ℕ). write filled size 0 k ≡ 0) same (write-here filled size 0),
              λ j lt.
                  subst IsAlphanumeric
                    (sym (write-elsewhere filled size j 0 (λ e. omega (arith, lt, same, e))))
                    (random_chars-IsAlphanumeric size 0 dest j (omega arith)
                      (omega (arith, lt, same))),
            ),
      )
