-- ===== src/Cleaner/Keeps.antt =====
-- What moving a segment between the lists of the log (project/cleaner.c) does not touch.
use log_heap_pmem.Base.{
  ℕ, ◌≡◌, refl, ◌∙◌, ap, subst, arith, ltb, ◌==◌, ok, >>=-eq-ok, Bool-cases, inl, inr, Run,
}
use log_heap_pmem.Types.{
  Offset, Memory, Segments, SegmentList, attach, set_next, offset_to_pointer,
  emergency_cleaner_segment_count,
}
use log_heap_pmem.Types.Chain.{attach-fields}
use log_heap_pmem.Types.Ids.{SameIds, set_next-ids, set_used_space-ids}
use log_heap_pmem.Cleaner.{
  get_emergency_cleaner_segment, get_new_cleaner_segment, refill_emergency_cleaner_segment,
  give_back, seek, unlink, append_cleaner_segment_to_used_segments,
  append_cleaned_segment_to_free_segments,
}

-- The entries, the head position and the segments' identifiers stay.
pub record Keeps (m m' : Memory) : Type 0 where
  pub entry : m'.entry ≡ m.entry
  pub position : m'.log.head_position ≡ m.log.head_position
  pub ids : (a : Offset) → (m'.segment a).id ≡ (m.segment a).id

unlink-ids :
    (f : Segments) (l : SegmentList) (id : ℕ) (prev curr : Offset) (r : Segments × SegmentList)
    → unlink f l id prev curr ≡ ok r
    → SameIds f r.0
unfolding unlink offset_to_pointer
unlink-ids f l id prev curr r run a =
    ground (arith, run, set_next-ids f prev (f curr).next_segment a)

pub get_new_cleaner_segment-Keeps : (m : Memory) → Keeps m (get_new_cleaner_segment m).0
unfolding get_new_cleaner_segment get_emergency_cleaner_segment
get_new_cleaner_segment-Keeps m = elim (Bool-cases (m.log.free.first == 0)) [
  | inl none_free ↦ rw none_free (elim (Bool-cases (m.log.emergency.first == 0)) [
    | inl none_left ↦ rw none_left (record { entry = refl; position = refl; ids = λ a. refl })
    | inr some_left ↦ rw some_left (record {
      entry = refl;
      position = refl;
      ids = λ a.
          set_next-ids _ m.log.emergency.first 0 a
          ∙ attach-fields m.segment m.log.cleaner m.log.emergency.first a;
    })
  ])
  | inr some_free ↦ rw some_free (record {
    entry = refl;
    position = refl;
    ids = λ a.
        set_next-ids _ m.log.free.first 0 a
        ∙ attach-fields m.segment m.log.cleaner m.log.free.first a;
  })
]

-- The memory of a run that ended.
ended : Memory → Run Memory → Memory
ended m (ok m') = m'
ended m _ = m

pub append_cleaner_segment_to_used_segments-Keeps :
    (fuel : ℕ) (m m' : Memory) (id : ℕ)
    → append_cleaner_segment_to_used_segments fuel m id ≡ ok m'
    → Keeps m m'
unfolding append_cleaner_segment_to_used_segments ended
append_cleaner_segment_to_used_segments-Keeps fuel m m' id run =
    let ((prev, curr), _, run) = >>=-eq-ok (seek fuel m.segment id 0 m.log.cleaner.first) _ run in
    elim (Bool-cases (curr == 0)) [
      | inl missing ↦ let run' = rw missing at run in ground (arith, run')
      | inr there ↦
          let run' = rw there at run in
          let ((segs, l), unlinked, last) =
            >>=-eq-ok (unlink (attach m.segment m.log.used curr).0 m.log.cleaner id prev curr) _
              run' in
          subst (Keeps m) (ap (ended m) last) (record {
            entry = refl;
            position = refl;
            ids = λ a.
                set_next-ids segs curr 0 a
                ∙ unlink-ids (attach m.segment m.log.used curr).0 m.log.cleaner id prev curr
                    (segs, l) unlinked a
                ∙ attach-fields m.segment m.log.used curr a;
          })
    ]

give_back-Keeps : (m : Memory) (x : Offset) → Keeps m (give_back m x)
unfolding give_back refill_emergency_cleaner_segment
give_back-Keeps m x =
    elim (Bool-cases
      (ltb m.log.current_emergency_cleaner_segments_count emergency_cleaner_segment_count)) [
        | inl few ↦ rw few (record {
          entry = refl;
          position = refl;
          ids = attach-fields m.segment m.log.emergency x;
        })
        | inr enough ↦
            rw enough
              (record { entry = refl; position = refl; ids = attach-fields m.segment m.log.free x })
      ]

pub append_cleaned_segment_to_free_segments-Keeps :
    (fuel : ℕ) (m m' : Memory) (id : ℕ)
    → append_cleaned_segment_to_free_segments fuel m id ≡ ok m'
    → Keeps m m'
unfolding append_cleaned_segment_to_free_segments ended
append_cleaned_segment_to_free_segments-Keeps fuel m m' id run =
    let ((prev, curr), _, run) = >>=-eq-ok (seek fuel m.segment id 0 m.log.used.first) _ run in
    elim (Bool-cases (curr == 0)) [
      | inl missing ↦
          let run' = rw missing at run in
          subst (Keeps m) (ap (ended m) run')
            (record { entry = refl; position = refl; ids = λ a. refl })
      | inr there ↦
          let run' = rw there at run in
          let given = give_back m curr in
          let first = give_back-Keeps m curr in
          let ((segs, l), unlinked, last) =
            >>=-eq-ok (unlink given.segment given.log.used id prev curr) _ run' in
          subst (Keeps m) (ap (ended m) last) (record {
            entry = first.entry;
            position = first.position;
            ids = λ a.
                set_used_space-ids (set_next segs curr 0) curr 0 a
                ∙ set_next-ids segs curr 0 a
                ∙ unlink-ids given.segment given.log.used id prev curr (segs, l) unlinked a
                ∙ first.ids a;
          })
    ]
