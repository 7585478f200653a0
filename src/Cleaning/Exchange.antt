-- ===== src/Cleaning/Exchange.antt =====
-- project/cleaner.c, `clean`: the new cleaner segment behind an exchange.
use log_heap_pmem.Base.{
  ℕ, zero, suc, ◌+◌, ◌-◌, ◌≤◌, ◌<◌, ◌≡◌, ◌≢◌, ◌⊎◌, inl, inr, refl, arith, ap, sym, subst, ◌∙◌, [],
  ◌∷◌, ◌∈◌, ◌∉◌, has, has-append, true, ==_ne, ok, ltb, Bool-cases, ltb_false→le,
}
use log_heap_pmem.Base.Words.{sub64, sub64_small}
use log_heap_pmem.Types.{Offset, Memory, segment_size, sizeof_segment, segment_of}
use log_heap_pmem.Glib.{GHashTable}
use log_heap_pmem.Log.Lists.{Lists}
use log_heap_pmem.Heap.{Heap}
use log_heap_pmem.Heap.Content.{read-memory, Live}
use log_heap_pmem.Consistency.{segment_count}
use log_heap_pmem.Cleaner.{acquire, get_new_cleaner_segment}
use log_heap_pmem.Cleaner.Keeps.{get_new_cleaner_segment-Keeps}
use log_heap_pmem.Cleaner.Supply.{get_new_cleaner_segment-acquire}
use log_heap_pmem.Cleaning.{Cursor, await_cleaner_segment, make_room}
use log_heap_pmem.Cleaning.Invariant.{
  HasSpare, IsCleanable, IsCleanable-move, Owns, acquire-Acquired,
}
use log_heap_pmem.Cleaning.Room.{
  Room, retired, retire_cleaner, acquire-offset, acquire-count, retired-count,
}

module _ (glib : GHashTable) where
  module _ (p : Heap glib) (ls : Lists) (is : IsCleanable glib p ls) (spare : HasSpare ls) where
    -- The new segment of a cleaner thread: no live entry lies in it.
    pub record Fresh (r : Memory × Offset) (ls' : Lists) : Type 0 where
      pub entry : r.0.entry ≡ p.memory.entry
      pub cleanable : IsCleanable glib (record p { memory = r.0 }) ls'
      pub cleaner : r.1 ∈ ls'.cleaner
      pub empty : (o : Offset) → Live glib p o → segment_of o ≢ r.1
      pub used : ls'.used ≡ ls.used
      pub count : segment_count ls' ≡ segment_count ls

    pub fetch_cleaner :
        (fuel : ℕ)
        → 0 < fuel
        → (r : Memory × Offset) × (ls' : Lists) × ((await_cleaner_segment fuel p.memory ≡ ok r)
            × Fresh r ls')
    unfolding await_cleaner_segment
    fetch_cleaner zero enough = absurd (omega (arith, enough))
    fetch_cleaner (suc fuel) enough =
        let (log, offset) = get_new_cleaner_segment-acquire p.memory ls is.heap.store.log in
        let got = acquire-Acquired p.memory ls is.heap.store.log spare in
        let r = get_new_cleaner_segment p.memory in
        let ls' = (acquire ls.free ls).0 in
        let nonzero : r.1 ≢ 0 = λ z. spare (sym offset ∙ z) in
        let keeps = get_new_cleaner_segment-Keeps p.memory in
        let out : (o : Offset) → Live glib p o → segment_of o ∉ ls.free =
          λ o live. (is.heap.store.placed o live).not_free in
        (
          r,
          ls',
          (
            rw (==_ne r.1 0 nonzero),
            record {
              entry = keeps.entry;
              cleanable =
                  IsCleanable-move glib p r.0 ls ls' is keeps got.fewer log got.head
                    (λ o live. got.free (segment_of o) (out o live))
                    (λ o live. got.emergency (segment_of o) (is.spare o live));
              cleaner = subst (λ (s : ℕ). s ∈ ls'.cleaner) (sym offset) got.cleaner;
              empty = λ o live same.
                  let there = out o live in
                  let there' = is.spare o live in
                  let name = same ∙ offset in
                  elim got.source [
                    | inl i ↦ ground (arith, ap (λ (b : ℕ). has b ls.free) name, there, i)
                    | inr i ↦ ground (arith, ap (λ (b : ℕ). has b ls.emergency) name, there', i)
                  ];
              used = got.used;
              count = acquire-count ls.free ls refl;
            },
          ),
        )

  module _ (p : Heap glib) (ls : Lists) (c : Cursor) (is : IsCleanable glib p ls)
      (owns : Owns glib p ls c) (size : ℕ) (small : size ≤ segment_size - sizeof_segment) where
    exchange_cleaner :
        (fuel : ℕ)
        → segment_count ls < fuel
        → HasSpare ls
        → ltb (sub64 (segment_size - sizeof_segment) c.cleaner_seg_pos) size ≡ true
        → (r : Memory × Cursor) × (ls' : Lists) × ((make_room fuel p.memory c size ≡ ok r)
            × Room glib p ls c size r ls')
    unfolding make_room
    exchange_cleaner fuel enough spare full =
        let (pre, post, m, (e, run, keeps, log, is')) =
          retire_cleaner glib p ls c is owns fuel enough in
        let ls1 = retired ls pre c.cleaner_seg post in
        let spare' : HasSpare ls1 = λ z. spare (sym (acquire-offset ls.free ls ls1 refl) ∙ z) in
        let ((m', seg), ls', (await, fresh)) =
          fetch_cleaner (record p { memory = m }) ls1 is' spare' fuel (omega (arith, enough)) in
        let entry = fresh.entry ∙ keeps.entry in
        (
          (m', record { cleaner_seg = seg; cleaner_seg_pos = 0 }),
          ls',
          (
            rw (full, run, await),
            record {
              entry = entry;
              cleanable = fresh.cleanable;
              owns = record {
                cleaner = fresh.cleaner;
                position = omega arith;
                written = λ o live same. absurd (fresh.empty o live same);
              };
              fits = omega (arith, small);
              used = λ a i.
                  rw fresh.used (ground (arith, i, has-append a ls.used (c.cleaner_seg ∷ [])));
              count = fresh.count ∙ retired-count ls pre c.cleaner_seg post e;
              same_read =
                  read-memory glib p ls is.heap m' ls' fresh.cleanable.heap.store
                    (λ o _. ap (λ (f : Offset → _). f o) entry);
              spent = inr refl;
            },
          ),
        )

    -- Room for an entry: in the thread's segment, or in a new one.
    pub make_room-Room :
        (fuel : ℕ)
        → segment_count ls < fuel
        → HasSpare ls ⊎ (c.cleaner_seg_pos + size ≤ segment_size - sizeof_segment)
        → (r : Memory × Cursor) × (ls' : Lists) × ((make_room fuel p.memory c size ≡ ok r)
            × Room glib p ls c size r ls')
    unfolding make_room
    make_room-Room fuel enough supply =
        let pos = owns.position in
        let room = sub64_small 4072 c.cleaner_seg_pos owns.position (omega arith) in
        elim (Bool-cases (ltb (sub64 (segment_size - sizeof_segment) c.cleaner_seg_pos) size)) [
          | inl full ↦ elim supply [
            | inl spare ↦ exchange_cleaner fuel enough spare full
            | inr fits ↦ ground (arith, full, room, fits)
          ]
          | inr fits ↦
              let le = ltb_false→le _ size fits in
              (
                (p.memory, c),
                ls,
                (
                  rw fits,
                  record {
                    entry = refl;
                    cleanable = is;
                    owns = owns;
                    fits = omega (arith, le, room);
                    used = λ a i. i;
                    count = refl;
                    same_read = λ j. refl;
                    spent = inl (refl, refl);
                  },
                ),
              )
        ]
