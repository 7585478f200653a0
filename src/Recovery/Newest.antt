-- ===== src/Recovery/Newest.antt =====
-- The choice among the versions of an object in project/hash_table.c, said without the loop.
use log_heap_pmem.Base.{
  ℕ, ◌≤◌, ◌≡◌, arith, sym, ◌∙◌, Bool, true, false, Option, none, some, List, [], ◌∷◌, ◌==◌, has,
  ◌||◌,
}
use log_heap_pmem.Types.{Offset, Memory}
use log_heap_pmem.Recovery.Notes.{pick, newest_from, newest}

-- The entry at `off` is a version of the object `id` that is not deleted.
abbrev pub IsVersion : Memory → ℕ → Offset → Type 0
IsVersion m id off = ((m.entry off).to_delete ≡ 0) × ((m.entry off).id ≡ id)

-- The result is a newest version among the ones that `among` marks, or there is none.
unfoldable pub IsNewest : Memory → ℕ → (Offset → Bool) → Option Offset → Type 0
IsNewest m id among none = (off : Offset) → among off ≡ true → IsVersion m id off → ⊥
IsNewest m id among (some best) =
    (among best ≡ true)
    × IsVersion m id best
    × ((off : Offset)
        → among off ≡ true
        → IsVersion m id off
        → (m.entry off).version ≤ (m.entry best).version)

pick-IsNewest :
    (m : Memory) (id : ℕ) (best : Option Offset) (off : Offset) (among : Offset → Bool)
    → IsNewest m id among best
    → IsNewest m id (λ o. (o == off) || among o) (pick m id best off)
unfolding pick IsNewest
pick-IsNewest m id none off among h = grind arith
pick-IsNewest m id (some best) off among h = grind arith

IsNewest-among :
    (m : Memory) (id : ℕ) (best : Option Offset) (f g : Offset → Bool)
    → ((o : Offset) → f o ≡ g o)
    → IsNewest m id f best
    → IsNewest m id g best
unfolding IsNewest
IsNewest-among m id none f g eq h = λ off a. h off (eq off ∙ a)
IsNewest-among m id (some best) f g eq (a, v, h) =
    (sym (eq best) ∙ a, v, λ off b. h off (eq off ∙ b))

newest_from-IsNewest :
    (m : Memory) (id : ℕ) (best : Option Offset) (offs : List Offset) (among : Offset → Bool)
    → IsNewest m id among best
    → IsNewest m id (λ o. has o offs || among o) (newest_from m id best offs)
unfolding newest_from
newest_from-IsNewest m id best [] among h = h
newest_from-IsNewest m id best (off ∷ offs) among h =
    IsNewest-among m id (newest_from m id (pick m id best off) offs)
      (λ o. has o offs || ((o == off) || among o)) (λ o. has o (off ∷ offs) || among o)
      (λ o. ground arith)
      (newest_from-IsNewest m id (pick m id best off) offs (λ o. (o == off) || among o)
        (pick-IsNewest m id best off among h))

-- The entry that is picked from a list is in it, is a version of the object that is not deleted, and
-- no such version in the list is newer; nothing is picked only if the list has no such version.
pub newest-IsNewest :
    (m : Memory) (id : ℕ) (offs : List Offset) → IsNewest m id (λ o. has o offs) (newest m id offs)
unfolding newest IsNewest
newest-IsNewest m id offs =
    IsNewest-among m id (newest m id offs) (λ o. has o offs || false) (λ o. has o offs)
      (λ o. ground arith) (newest_from-IsNewest m id none offs (λ o. false) (λ off a. ground arith))
