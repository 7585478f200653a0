-- ===== src/Cleaning/Room.antt =====
-- project/cleaner.c, `clean`: a full cleaner segment is exchanged.
use log_heap_pmem.Base.{
  ℕ, ◌+◌, ◌-◌, ◌≤◌, ◌<◌, ◌≡◌, ◌≢◌, ◌⊎◌, refl, arith, ap, sym, subst, ◌∙◌, List, [], ◌∷◌, ◌++◌, ◌∈◌,
  ◌∉◌, has, has-append, length, length-append, ok, Distinct,
}
use native.Mathlib.Decide.{ℕ_discrete}
use log_heap_pmem.Types.{Offset, Memory, segment_size, sizeof_segment}
use log_heap_pmem.Glib.{GHashTable}
use log_heap_pmem.Log.Lists.{Lists, IsLog, places}
use log_heap_pmem.Heap.{Heap}
use log_heap_pmem.Heap.Content.{read}
use log_heap_pmem.Consistency.{segment_count}
use log_heap_pmem.Cleaner.{acquire, acquire_emergency, append_cleaner_segment_to_used_segments}
use log_heap_pmem.Cleaner.Keeps.{Keeps, append_cleaner_segment_to_used_segments-Keeps}
use log_heap_pmem.Cleaner.Move.{append_cleaner_segment_to_used_segments-IsLog}
use log_heap_pmem.Cleaner.Unlink.{Lacks, Distinct-split}
use log_heap_pmem.Cleaning.{Cursor}
use log_heap_pmem.Cleaning.Invariant.{DistinctIds, IsCleanable, IsCleanable-move, Owns}

pub ∈-split :
    (x : ℕ) (xs : List ℕ) → x ∈ xs → (pre : List ℕ) × (post : List ℕ) × (xs ≡ pre ++ x ∷ post)
∈-split x [] i = ground (arith, i)
∈-split x (y ∷ xs) i = elim (ℕ_discrete x y) [
  | yes same ↦ ([], xs, rw same)
  | no other ↦
      let (pre, post, e) = ∈-split x xs (ground (arith, i)) in
      (y ∷ pre, post, ap (λ (zs : List ℕ). y ∷ zs) e)
]

-- A segment of one of the lists is no NULL, and no other one on the list has its identifier.
pub others-Lacks :
    (m : Memory) (ls : Lists) (x : Offset) (pre post : List ℕ)
    → DistinctIds m ls
    → ((a : ℕ) → a ∈ pre ++ x ∷ post → (a ≢ 0) × (1 ≤ places a ls))
    → Distinct (pre ++ x ∷ post)
    → Lacks m.segment (m.segment x).id pre × Lacks m.segment (m.segment x).id post
others-Lacks m ls x pre post ids inside d =
    let out = (Distinct-split pre x post d).1 in
    let (nx, px) = inside x (ground (arith, has-append x pre (x ∷ post))) in
    let other : (a : ℕ) → a ∈ pre ++ post → (m.segment a).id ≢ (m.segment x).id = λ a i e.
      let (na, pa) =
        inside a (ground (arith, has-append a pre (x ∷ post), has-append a pre post)) in
      let same = ids a x na nx pa px e in
      ground (arith, ap (λ (b : ℕ). has b (pre ++ post)) same) in
    (
      λ a i. other a (ground (arith, has-append a pre post)),
      λ a i. other a (ground (arith, has-append a pre post)),
    )

-- The lists after the cleaner segment between `pre` and `post` became a used one.
abbrev pub retired : Lists → List ℕ → Offset → List ℕ → Lists
retired ls pre x post = record ls { cleaner = pre ++ post; used = ls.used ++ x ∷ [] }

retired-fewer :
    (ls : Lists) (pre : List ℕ) (x : Offset) (post : List ℕ) (a : ℕ)
    → ls.cleaner ≡ pre ++ x ∷ post
    → x ∉ pre ++ post
    → places a (retired ls pre x post) ≤ places a ls
retired-fewer ls pre x post a e out = elim (ℕ_discrete x a) [
  | yes same ↦
      subst (λ (b : ℕ). places b (retired ls pre x post) ≤ places b ls) same
        (rw e (ground (arith, has-append x pre (x ∷ post), has-append x ls.used (x ∷ []))))
  | no other ↦ rw e (
      ground
        (arith, has-append a pre (x ∷ post), has-append a pre post, has-append a ls.used (x ∷ [])))
]

acquire_emergency-offset :
    (es : List ℕ) (ls ls' : Lists) → (acquire_emergency es ls').1 ≡ (acquire_emergency es ls).1
unfolding acquire_emergency
acquire_emergency-offset [] ls ls' = refl
acquire_emergency-offset (s ∷ es) ls ls' = refl

pub acquire-offset :
    (fs : List ℕ) (ls ls' : Lists)
    → ls'.emergency ≡ ls.emergency
    → (acquire fs ls').1 ≡ (acquire fs ls).1
unfolding acquire
acquire-offset [] ls ls' e =
    acquire_emergency-offset ls'.emergency ls ls'
    ∙ ap (λ (es : List ℕ). (acquire_emergency es ls).1) e
acquire-offset (s ∷ fs) ls ls' e = refl

-- How many segments lie on the lists that the cleaner changes.
acquire_emergency-count :
    (es : List ℕ) (ls : Lists)
    → ls.emergency ≡ es
    → segment_count (acquire_emergency es ls).0 ≡ segment_count ls
unfolding acquire_emergency segment_count
acquire_emergency-count [] ls e = refl
acquire_emergency-count (s ∷ es) ls e = rw e (omega (arith, length-append ls.cleaner (s ∷ [])))

pub acquire-count :
    (fs : List ℕ) (ls : Lists) → ls.free ≡ fs → segment_count (acquire fs ls).0 ≡ segment_count ls
unfolding acquire segment_count
acquire-count [] ls e = acquire_emergency-count ls.emergency ls refl
acquire-count (s ∷ fs) ls e = rw e (omega (arith, length-append ls.cleaner (s ∷ [])))

pub retired-count :
    (ls : Lists) (pre : List ℕ) (x : Offset) (post : List ℕ)
    → ls.cleaner ≡ pre ++ x ∷ post
    → segment_count (retired ls pre x post) ≡ segment_count ls
unfolding segment_count
retired-count ls pre x post e = rw e (
    omega
      (arith, length-append pre (x ∷ post), length-append pre post, length-append ls.used (x ∷ [])))

module _ (glib : GHashTable) where
  -- What `make_room` for so many bytes leaves.
  pub record Room (p : Heap glib) (ls : Lists) (c : Cursor) (size : ℕ) (r : Memory × Cursor)
      (ls' : Lists) : Type 0 where
    pub entry : r.0.entry ≡ p.memory.entry
    pub cleanable : IsCleanable glib (record p { memory = r.0 }) ls'
    pub owns : Owns glib (record p { memory = r.0 }) ls' r.1
    pub fits : r.1.cleaner_seg_pos + size ≤ segment_size - sizeof_segment
    pub used : (a : ℕ) → a ∈ ls.used → a ∈ ls'.used
    pub count : segment_count ls' ≡ segment_count ls
    pub same_read : (j : ℕ) → read glib (record p { memory = r.0 }) j ≡ read glib p j
    pub spent : ((ls' ≡ ls) × (r.1 ≡ c)) ⊎ (r.1.cleaner_seg_pos ≡ 0)

  module _ (p : Heap glib) (ls : Lists) (c : Cursor) (is : IsCleanable glib p ls)
      (owns : Owns glib p ls c) where
    -- The thread's segment moves to the used ones, and no live entry is touched.
    pub retire_cleaner :
        (fuel : ℕ)
        → segment_count ls < fuel
        → (pre : List ℕ) × (post : List ℕ) × (m : Memory) × ((ls.cleaner
              ≡ pre ++ c.cleaner_seg ∷ post)
            × (append_cleaner_segment_to_used_segments fuel p.memory
                  (p.memory.segment c.cleaner_seg).id
                ≡ ok m)
            × Keeps p.memory m
            × IsLog m (retired ls pre c.cleaner_seg post)
            × IsCleanable glib (record p { memory = m }) (retired ls pre c.cleaner_seg post))
    unfolding segment_count
    retire_cleaner fuel enough =
        let x = c.cleaner_seg in
        let log = is.heap.store.log in
        let (pre, post, e) = ∈-split x ls.cleaner owns.cleaner in
        let d = subst Distinct e log.cleaner.distinct in
        let (before, behind) =
          others-Lacks p.memory ls x pre post is.ids
            (λ a i.
              let at : a ∈ ls.cleaner = subst (λ (xs : List ℕ). a ∈ xs) (sym e) i in
              (λ z. ground (arith, log.apart 0, ap (λ (b : ℕ). has b ls.cleaner) z), ground arith))
            d in
        let size = length-append pre (x ∷ post) in
        let whole = ap length e in
        let (m, run, log') =
          append_cleaner_segment_to_used_segments-IsLog p.memory ls log (p.memory.segment x).id pre
            post x e refl before behind fuel (omega arith) in
        let keeps =
          append_cleaner_segment_to_used_segments-Keeps fuel p.memory m (p.memory.segment x).id
            run in
        (
          pre,
          post,
          m,
          (
            e,
            run,
            keeps,
            log',
            IsCleanable-move glib p m ls (retired ls pre x post) is keeps
                (λ a. retired-fewer ls pre x post a e (Distinct-split pre x post d).1) log' refl
                (λ o live. (is.heap.store.placed o live).not_free) is.spare,
          ),
        )
