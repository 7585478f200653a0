-- ===== src/Cleaning/Segment.antt =====
-- project/cleaner.c, `clean`: a used segment is cleaned and given back.
use log_heap_pmem.Base.{
  ℕ, ◌≤◌, ◌<◌, ◌≡◌, ◌≢◌, ◌⊎◌, inl, inr, refl, arith, ap, sym, subst, List, [], ◌∷◌, ◌++◌, ◌∈◌, ◌∉◌,
  has, has-append, ok, Distinct, length, length-append, ltb, Bool-cases,
}
use native.Mathlib.Decide.{ℕ_discrete}
use log_heap_pmem.Types.{Offset, Memory, segment_of, emergency_cleaner_segment_count}
use log_heap_pmem.Glib.{GHashTable}
use log_heap_pmem.Log.Lists.{Lists, places}
use log_heap_pmem.Heap.{Heap, get_address, get_from_hash_table}
use log_heap_pmem.Heap.Content.{Live, read, read-memory}
use log_heap_pmem.Consistency.{segment_count}
use log_heap_pmem.Cleaner.{append_cleaned_segment_to_free_segments}
use log_heap_pmem.Cleaner.GiveBack.{give_back_lists, append_cleaned_segment-IsLog}
use log_heap_pmem.Cleaner.Keeps.{append_cleaned_segment_to_free_segments-Keeps}
use log_heap_pmem.Cleaner.Unlink.{Distinct-split}
use log_heap_pmem.Cleaning.{Cursor}
use log_heap_pmem.Cleaning.Invariant.{IsCleanable, IsCleanable-move, Owns}
use log_heap_pmem.Cleaning.Room.{∈-split, others-Lacks}

-- A segment left the used ones and became a free or an emergency segment.
pub record GivenBack (ls ls' : Lists) (x : Offset) : Type 0 where
  pub head : ls'.head ≡ ls.head
  pub cleaner : ls'.cleaner ≡ ls.cleaner
  pub fewer : (a : ℕ) → places a ls' ≤ places a ls
  pub free : (a : ℕ) → a ≢ x → a ∉ ls.free → a ∉ ls'.free
  pub emergency : (a : ℕ) → a ≢ x → a ∉ ls.emergency → a ∉ ls'.emergency
  pub target : (x ∈ ls'.free) ⊎ (x ∈ ls'.emergency)

module _ (ls : Lists) (pre : List ℕ) (x : Offset) (post : List ℕ) (e : ls.used ≡ pre ++ x ∷ post)
    (out : x ∉ pre ++ post) where
  to_emergency-fewer :
      (a : ℕ)
      → places a (record ls { used = pre ++ post; emergency = ls.emergency ++ x ∷ [] })
        ≤ places a ls
  to_emergency-fewer a =
      let after = record ls { used = pre ++ post; emergency = ls.emergency ++ x ∷ [] } in
      elim (ℕ_discrete x a) [
        | yes same ↦
            subst (λ (b : ℕ). places b after ≤ places b ls) same
              (rw e (
                ground
                  (arith, out, has-append x pre (x ∷ post), has-append x ls.emergency (x ∷ []))))
        | no other ↦ rw e (
            ground (
              arith,
              has-append a pre (x ∷ post),
              has-append a pre post,
              has-append a ls.emergency (x ∷ []),
            ))
      ]

  to_free-fewer :
      (a : ℕ) → places a (record ls { used = pre ++ post; free = ls.free ++ x ∷ [] }) ≤ places a ls
  to_free-fewer a =
      let after = record ls { used = pre ++ post; free = ls.free ++ x ∷ [] } in
      elim (ℕ_discrete x a) [
        | yes same ↦
            subst (λ (b : ℕ). places b after ≤ places b ls) same
              (rw e
                (ground (arith, out, has-append x pre (x ∷ post), has-append x ls.free (x ∷ []))))
        | no other ↦ rw e (
            ground (
              arith,
              has-append a pre (x ∷ post),
              has-append a pre post,
              has-append a ls.free (x ∷ []),
            ))
      ]

  give_back_lists-GivenBack :
      (count : ℕ) → GivenBack ls (give_back_lists count ls x (pre ++ post)) x
  unfolding give_back_lists
  give_back_lists-GivenBack count = elim (Bool-cases (ltb count emergency_cleaner_segment_count)) [
    | inl few ↦ rw few (record {
      head = refl;
      cleaner = refl;
      fewer = to_emergency-fewer;
      free = λ a ne h. h;
      emergency = λ a ne h. ground (arith, ne, h, has-append a ls.emergency (x ∷ []));
      target = inr (ground (arith, has-append x ls.emergency (x ∷ [])));
    })
    | inr enough ↦ rw enough (record {
      head = refl;
      cleaner = refl;
      fewer = to_free-fewer;
      free = λ a ne h. ground (arith, ne, h, has-append a ls.free (x ∷ []));
      emergency = λ a ne h. h;
      target = inl (ground (arith, has-append x ls.free (x ∷ [])));
    })
  ]

module _ (glib : GHashTable) where
  open glib use {Table}

  module _ (p : Heap glib) (ls : Lists) (c : Cursor) (is : IsCleanable glib p ls)
      (owns : Owns glib p ls c) (seg : Offset) (on : seg ∈ ls.used)
      (empty : (o : Offset) → Live glib p o → segment_of o ≢ seg) where
    -- A used segment without live entries is given back.
    pub give_back_cleaned :
        (fuel : ℕ)
        → segment_count ls < fuel
        → (m : Memory) × (ls' : Lists) × ((append_cleaned_segment_to_free_segments fuel p.memory
                (p.memory.segment seg).id
              ≡ ok m)
            × IsCleanable glib (record p { memory = m }) ls'
            × Owns glib (record p { memory = m }) ls' c
            × GivenBack ls ls' seg
            × ((j : ℕ) → read glib (record p { memory = m }) j ≡ read glib p j))
    unfolding segment_count
    give_back_cleaned fuel enough =
        let log = is.heap.store.log in
        let (pre, post, e) = ∈-split seg ls.used on in
        let d = subst Distinct e log.used.distinct in
        let (before, behind) =
          others-Lacks p.memory ls seg pre post is.ids
            (λ a i.
              let at : a ∈ ls.used = subst (λ (xs : List ℕ). a ∈ xs) (sym e) i in
              (λ z. ground (arith, log.apart 0, ap (λ (b : ℕ). has b ls.used) z), ground arith))
            d in
        let size = length-append pre (seg ∷ post) in
        let whole = ap length e in
        let id = (p.memory.segment seg).id in
        let (m, run, log') =
          append_cleaned_segment-IsLog p.memory ls log id pre post seg e refl before behind fuel
            (omega arith) in
        let keeps = append_cleaned_segment_to_free_segments-Keeps fuel p.memory m id run in
        let count = p.memory.log.current_emergency_cleaner_segments_count in
        let ls' = give_back_lists count ls seg (pre ++ post) in
        let given =
          give_back_lists-GivenBack ls pre seg post e (Distinct-split pre seg post d).1 count in
        let after =
          IsCleanable-move glib p m ls ls' is keeps given.fewer log' given.head
            (λ o live.
              given.free (segment_of o) (empty o live) (is.heap.store.placed o live).not_free)
            (λ o live. given.emergency (segment_of o) (empty o live) (is.spare o live)) in
        (
          m,
          ls',
          (
            run,
            after,
            record {
              cleaner = rw given.cleaner owns.cleaner;
              position = owns.position;
              written = λ o live same. rw keeps.entry (owns.written o live same);
            },
            given,
            read-memory glib p ls is.heap m ls' after.heap.store
                (λ o _. ap (λ (f : Offset → _). f o) keeps.entry),
          ),
        )

  module _ (p : Heap glib) (ls : Lists) (t : Table) where
    abbrev noting : Heap glib
    noting = record p { currently_cleaned_segments = t }

    -- Which segments are being cleaned does not matter to the heap.
    pub IsCleanable-noting : IsCleanable glib p ls → IsCleanable glib noting ls
    IsCleanable-noting is = record {
      heap = record {
        store = is.heap.store;
        entries = λ i h.
            let at = is.heap.entries i h in
            record { nonzero = at.nonzero; own = at.own; nonempty = at.nonempty; kept = at.kept };
        separate = is.heap.separate;
      };
      spare = is.spare;
      ids = is.ids;
    }

    pub Owns-noting : (c : Cursor) → Owns glib p ls c → Owns glib noting ls c
    Owns-noting c owns = record {
      cleaner = owns.cleaner;
      position = owns.position;
      written = owns.written;
    }

    pub read-noting : (j : ℕ) → read glib noting j ≡ read glib p j
    unfolding read get_address get_from_hash_table
    read-noting j = refl
