-- ===== src/Base/Runs.antt =====
-- Runs of code that may dereference NULL or loop without end.
use mathlib.Core.Path.{◌≡◌, refl}

pub data Run {ℓ} (A : Type ℓ) : Type ℓ where
  out_of_fuel : Run A
  fault : Run A
  ok : A → Run A

infixl 5 ◌>>=◌
abbrev pub ◌>>=◌ {ℓ κ} : {A : Type ℓ} {B : Type κ} → Run A → (A → Run B) → Run B
out_of_fuel >>= next = out_of_fuel
fault >>= next = fault
ok a >>= next = next a

-- A run that ends well has a first part that ends well.
pub >>=-eq-ok {ℓ κ} :
    {A : Type ℓ} {B : Type κ} (run : Run A) (next : A → Run B) {out : B}
    → (run >>= next) ≡ ok out
    → (mid : A) × (run ≡ ok mid) × (next mid ≡ ok out)
>>=-eq-ok out_of_fuel next done = cc
>>=-eq-ok fault next done = cc
>>=-eq-ok (ok mid) next done = (mid, refl, done)

pub >>=-cong {ℓ κ} :
    {A : Type ℓ} {B : Type κ} (run : Run A) {next other : A → Run B}
    → ((a : A) → next a ≡ other a)
    → (run >>= next) ≡ (run >>= other)
>>=-cong out_of_fuel same = refl
>>=-cong fault same = refl
>>=-cong (ok a) same = same a

-- The same where the rest may rely on what the first part gave.
pub >>=-cong_ok {ℓ κ} :
    {A : Type ℓ} {B : Type κ} (run : Run A) {next other : A → Run B}
    → ((a : A) → run ≡ ok a → next a ≡ other a)
    → (run >>= next) ≡ (run >>= other)
>>=-cong_ok out_of_fuel same = refl
>>=-cong_ok fault same = refl
>>=-cong_ok (ok a) same = same a refl

pub >>=-assoc {ℓ κ ρ} :
    {A : Type ℓ} {B : Type κ} {C : Type ρ} (run : Run A) (next : A → Run B) (last : B → Run C)
    → ((run >>= next) >>= last) ≡ (run >>= λ a. next a >>= last)
>>=-assoc out_of_fuel next last = refl
>>=-assoc fault next last = refl
>>=-assoc (ok a) next last = refl

pub >>=-ok {ℓ} : {A : Type ℓ} (run : Run A) → (run >>= λ a. ok a) ≡ run
>>=-ok out_of_fuel = refl
>>=-ok fault = refl
>>=-ok (ok a) = refl
