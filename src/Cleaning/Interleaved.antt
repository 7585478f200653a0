-- ===== src/Cleaning/Interleaved.antt =====
-- A client's calls (project/log_pmem.c) between the entries that a cleaner thread (project/cleaner.c)
-- cleans: the two take turns as `update_move_mutex` lets them.
use log_heap_pmem.Base.{
  ℕ, ◌≤◌, ◌<◌, ◌≡◌, ◌≢◌, ◌⊎◌, refl, arith, sym, subst, ◌∙◌, List, [], ◌∷◌, ◌∈◌, ok, >>=-eq-ok,
}
use log_heap_pmem.Types.{Offset, Memory, segment_of, offset_to_pointer}
use log_heap_pmem.Glib.{GHashTable}
use log_heap_pmem.Log.Lists.{Lists, IsLog, IsLog-unique}
use log_heap_pmem.Heap.{Heap, add_to_hash_table}
use log_heap_pmem.Heap.Content.{Live, read}
use log_heap_pmem.Heap.History.{
  Call, set, update, free, Fits, perform, effects, perform-Step, perform-consistent, effects-cong,
}
use log_heap_pmem.Consistency.{segment_count}
use log_heap_pmem.Recovery.{entry_at}
use log_heap_pmem.Cleaner.{append_cleaned_segment_to_free_segments}
use log_heap_pmem.Cleaning.{Cursor, make_room, move_entry, clean_entry}
use log_heap_pmem.Log.{log_entry_size}
use log_heap_pmem.Cleaning.Client.{Kept, perform-Kept}
use log_heap_pmem.Cleaning.Entry.Choice.{clean_entry-Cleaned}
use log_heap_pmem.Cleaning.Invariant.{IsCleanable, Owns, HasSpare}
use log_heap_pmem.Cleaning.Moved.{Settled}
use log_heap_pmem.Cleaning.Segment.{give_back_cleaned}

module _ (glib : GHashTable) where
  -- The calls that hold `update_move_mutex` while they read or change the heap.
  abbrev pub Locks : Call → Type 0
  Locks (set id size bytes) = ⊥
  Locks (update id size bytes) = Unit
  Locks (free id) = Unit

  -- The thread is at an entry of a used segment, and finds room for it: a segment is spare, or the
  -- thread has written no further in its own segment than it has read in the used one.
  pub record AtEntry (fuel : ℕ) (p : Heap glib) (c : Cursor) (off : Offset) : Type 0 where
    pub seg : Offset
    pub position : ℕ
    pub place : off ≡ entry_at seg position
    pub inside : segment_of off ≡ seg
    pub settled : Settled glib p off
    pub lists : Lists
    pub log : IsLog p.memory lists
    pub used : seg ∈ lists.used
    pub enough : segment_count lists < fuel
    pub supply : HasSpare lists ⊎ (c.cleaner_seg_pos ≤ position)

  -- The thread is at the end of a used segment that has no live entry left.
  pub record AtEnd (fuel : ℕ) (p : Heap glib) (seg : Offset) : Type 0 where
    pub empty : (o : Offset) → Live glib p o → segment_of o ≢ seg
    pub lists : Lists
    pub log : IsLog p.memory lists
    pub used : seg ∈ lists.used
    pub enough : segment_count lists < fuel

  -- From a heap and a cursor to others, by calls, with their results, and by the thread's steps.
  pub data Interleaved (fuel : ℕ)
      : Heap glib → Cursor → List Call → List ℕ → Heap glib → Cursor → Type 0 where
    finished : {p : Heap glib} {c : Cursor} → Interleaved fuel p c [] [] p c
    called :
        {p q : Heap glib} {c d : Cursor} {calls : List Call} {rs : List ℕ} (call : Call)
        → Locks call
        → Fits call
        → Interleaved fuel (perform glib p call).0 c calls rs q d
        → Interleaved fuel p c (call ∷ calls) ((perform glib p call).1 ∷ rs) q d
    cleaned :
        {p p' q : Heap glib} {c c' d : Cursor} {calls : List Call} {rs : List ℕ} (off : Offset)
        → AtEntry fuel p c off
        → clean_entry glib fuel p c off ≡ ok (p', c')
        → Interleaved fuel p' c' calls rs q d
        → Interleaved fuel p c calls rs q d
    given_back :
        {p q : Heap glib} {c d : Cursor} {m : Memory} {calls : List Call} {rs : List ℕ}
        (seg : Offset)
        → AtEnd fuel p seg
        → append_cleaned_segment_to_free_segments fuel p.memory (p.memory.segment seg).id ≡ ok m
        → Interleaved fuel (record p { memory = m }) c calls rs q d
        → Interleaved fuel p c calls rs q d

  -- The thread's step at an entry, whose result is known.
  clean_entry-Kept :
      (fuel : ℕ) (p : Heap glib) (ls : Lists) (c : Cursor) (is : IsCleanable glib p ls)
      (owns : Owns glib p ls c) (off : Offset) (p' : Heap glib) (c' : Cursor)
      → AtEntry fuel p c off
      → clean_entry glib fuel p c off ≡ ok (p', c')
      → Kept glib p' c' × ((j : ℕ) → read glib p' j ≡ read glib p j)
  clean_entry-Kept fuel p ls c is owns off p' c' at run =
      let one = IsLog-unique p.memory at.lists ls at.log is.heap.store.log in
      let used = subst (λ (l : Lists). at.seg ∈ l.used) one at.used in
      let enough = subst (λ l. segment_count l < fuel) one at.enough in
      let supply =
        subst (λ (l : Lists). HasSpare l ⊎ (c.cleaner_seg_pos ≤ at.position)) one at.supply in
      let (r, ls', (run', all)) =
        clean_entry-Cleaned glib p ls c is owns at.seg used off at.inside fuel at.position at.place
          at.settled enough supply in
      let same : r ≡ (p', c') = cc in
      (
        subst (λ (s : Heap glib × Cursor). Kept glib s.0 s.1) same
            (record { lists = ls'; cleanable = all.cleanable; owns = all.owns }),
        subst (λ (s : Heap glib × Cursor). (j : ℕ) → read glib s.0 j ≡ read glib p j) same
            all.same_read,
      )

  give_back-Kept :
      (fuel : ℕ) (p : Heap glib) (ls : Lists) (c : Cursor) (is : IsCleanable glib p ls)
      (owns : Owns glib p ls c) (seg : Offset) (m : Memory)
      → AtEnd fuel p seg
      → append_cleaned_segment_to_free_segments fuel p.memory (p.memory.segment seg).id ≡ ok m
      → Kept glib (record p { memory = m }) c
        × ((j : ℕ) → read glib (record p { memory = m }) j ≡ read glib p j)
  give_back-Kept fuel p ls c is owns seg m at run =
      let one = IsLog-unique p.memory at.lists ls at.log is.heap.store.log in
      let used = subst (λ (l : Lists). seg ∈ l.used) one at.used in
      let enough = subst (λ l. segment_count l < fuel) one at.enough in
      let (m', ls', (run', is', owns', given, same)) =
        give_back_cleaned glib p ls c is owns seg used at.empty fuel enough in
      let eq : m' ≡ m = cc in
      (
        subst (λ (k : Memory). Kept glib (record p { memory = k }) c) eq
            (record { lists = ls'; cleanable = is'; owns = owns' }),
        subst (λ (k : Memory). (j : ℕ) → read glib (record p { memory = k }) j ≡ read glib p j) eq
            same,
      )

  move_entry-consistent :
      (fuel : ℕ) (p : Heap glib) (c : Cursor) (off : Offset) (p' : Heap glib) (c' : Cursor)
      → move_entry glib fuel p c off ≡ ok (p', c')
      → p'.consistent ≡ p.consistent
  unfolding move_entry add_to_hash_table
  move_entry-consistent fuel p c off p' c' run =
      let size = log_entry_size (p.memory.entry off).length in
      let ((m, c1), _, rest) = >>=-eq-ok (make_room fuel p.memory c size) _ run in cc

  clean_entry-consistent :
      (fuel : ℕ) (p : Heap glib) (c : Cursor) (off : Offset) (p' : Heap glib) (c' : Cursor)
      → clean_entry glib fuel p c off ≡ ok (p', c')
      → p'.consistent ≡ p.consistent
  unfolding clean_entry offset_to_pointer
  clean_entry-consistent fuel p c off p' c' run =
      ground (arith, move_entry-consistent fuel p c off p' c')

  -- Take a well-formed heap whose log is consistent, with segments of distinct identifiers and no
  -- live entry in an emergency segment, and a thread that owns its cleaner segment. Calls of
  -- `update_data` and `pfree`, which hold `update_move_mutex`, with sizes of at most 4040 and every
  -- `malloc` succeeding, are made in any order with steps of the thread. In a step the thread
  -- cleans an entry of a used segment that is deleted, current or older than the current one, with
  -- fuel above the number of segments, and with a free or an emergency segment left or the end of
  -- what it has written in its own segment not behind the entry's position; or it gives back a used
  -- segment that has no live entry; and these steps return. Then every identifier has the data that
  -- the calls that reported success give it, in their order, and the heap and the thread's segment
  -- stay as they were taken to be.
  pub Interleaved-effects :
      {fuel : ℕ} {p q : Heap glib} {c d : Cursor} {calls : List Call} {rs : List ℕ} (ls : Lists)
      → IsCleanable glib p ls
      → Owns glib p ls c
      → p.consistent ≢ 0
      → Interleaved fuel p c calls rs q d
      → Kept glib q d × ((j : ℕ) → read glib q j ≡ effects calls rs (read glib p) j)
  unfolding effects
  Interleaved-effects ls is owns ready finished =
      (record { lists = ls; cleanable = is; owns = owns }, λ j. refl)
  Interleaved-effects {fuel} {p} {q} {c} {d} ls is owns ready
        (called {calls} {rs} call locks fit rest) =
      let kept = perform-Kept glib p ls c call is owns ready fit in
      let step = perform-Step glib p ls is.heap ready call fit in
      let (last, reads) =
        Interleaved-effects kept.lists kept.cleanable kept.owns
          (λ z. ready (sym (perform-consistent glib p call) ∙ z)) rest in
      (
        last,
        λ j.
            reads j
            ∙ effects-cong glib calls rs (read glib (perform glib p call).0) _ step.content j,
      )
  Interleaved-effects {fuel} {p} {q} {c} {d} {calls} {rs} ls is owns ready
        (cleaned {p'} {c'} off at run rest) =
      let (kept, same) = clean_entry-Kept fuel p ls c is owns off p' c' at run in
      let (last, reads) =
        Interleaved-effects kept.lists kept.cleanable kept.owns
          (λ z. ready (sym (clean_entry-consistent fuel p c off p' c' run) ∙ z)) rest in
      (last, λ j. reads j ∙ effects-cong glib calls rs (read glib p') (read glib p) same j)
  Interleaved-effects {fuel} {p} {q} {c} {d} {calls} {rs} ls is owns ready
        (given_back {m} seg at run rest) =
      let (kept, same) = give_back-Kept fuel p ls c is owns seg m at run in
      let (last, reads) = Interleaved-effects kept.lists kept.cleanable kept.owns ready rest in
      (
        last,
        λ j.
            reads j
            ∙ effects-cong glib calls rs (read glib (record p { memory = m })) (read glib p) same j,
      )
