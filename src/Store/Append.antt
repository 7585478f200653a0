-- ===== src/Store/Append.antt =====
-- project/log.c, `append_to_log` against the places of the live entries.
use log_heap_pmem.Base.{
  ℕ, ◌+◌, ◌-◌, ◌≤◌, ◌<◌, ◌≡◌, ◌≢◌, ◌⊎◌, inl, inr, refl, arith, sym, ◌∙◌, List, [], ◌∷◌, ◌∉◌, ◌==◌,
  if◌then◌else◌, Bool-cases, ltb_false→le, le→ltb, ltb→lt, ltb, ==_iff, ==_ne,
}
use native.Mathlib.Decide.{ℕ_discrete}
use log_heap_pmem.Base.Words.{add64_small, sub64_small}
use log_heap_pmem.Types.{
  Offset, Memory, LogEntry, segment_size, sizeof_segment, sizeof_log_entry, offset_to_pointer,
}
use log_heap_pmem.Log.{
  append_head_to_used_segments_and_get_new_head_segment, log_entry_size, head_end, head_room,
  mark_unused, write_entry, append_to_head, take_free, ensure_head, ensure_room, append_to_log,
}
use log_heap_pmem.Log.Lists.{Lists, exchange, fetch_from, retire}
use log_heap_pmem.Store.{IsStore, SameLive, Stored, Outcome, full, stored}
use log_heap_pmem.Log.Head.{append_head-exchange}
use log_heap_pmem.Store.Write.{
  write_entry-Stored, head_end-segment, mark_unused-same, mark_unused-IsStore,
}
use log_heap_pmem.Store.Exchange.{
  advance-IsStore, entry-advance, free-retire, exchange-Moves, Moves-refl,
}

abbrev advance : Memory → Memory × ℕ
advance = append_head_to_used_segments_and_get_new_head_segment

-- The first free segment is no NULL.
exchange-cases :
    (ls : Lists) (fs : List ℕ)
    → ls.free ≡ fs
    → 0 ∉ fs
    → (((fetch_from fs ls).1 ≡ 1) × (fs ≡ []))
      ⊎ (((fetch_from fs ls).1 ≡ 0) × ((fetch_from fs ls).0.head ≢ 0))
unfolding fetch_from
exchange-cases ls [] e out = inl (refl, refl)
exchange-cases ls (f ∷ fs) e out = inr (refl, ground arith)

position-advance_done : (m : Memory) → (advance m).1 ≡ 0 → (advance m).0.log.head_position ≡ 0
unfolding append_head_to_used_segments_and_get_new_head_segment take_free
position-advance_done m h = ground arith

Stored-from :
    (m0 m : Memory) (Live : Offset → Type 0) {e : LogEntry} {m' : Memory} {off : Offset}
    {ls' : Lists}
    → SameLive Live m0 m
    → Stored m Live e m' off ls'
    → Stored m0 Live e m' off ls'
Stored-from m0 m Live same st = record {
  nonzero = st.nonzero;
  at = st.at;
  store = st.store;
  same = λ o live. st.same o live ∙ same o live;
  apart = st.apart;
}

module _ (m : Memory) (ls : Lists) (Live : Offset → Type 0) (is : IsStore m ls Live) where
  -- An exchange fails only if no segment is free; otherwise there is a head segment.
  advance-cases :
      (((advance m).1 ≡ 1) × (ls.free ≡ [])) ⊎ (((advance m).1 ≡ 0) × ((exchange ls).0.head ≢ 0))
  unfolding exchange
  advance-cases =
      let code = (append_head-exchange m ls is.log).1 in
      let free = free-retire ls in
      let out : 0 ∉ ls.free = ground (arith, is.log.apart 0) in
      ground (arith, exchange-cases (retire ls) (retire ls).free refl (rw free out))

  module _ (e : LogEntry) (small : sizeof_log_entry + e.length ≤ segment_size - sizeof_segment)
      (no_room : ls.head ≢ 0
        → segment_size - sizeof_segment < m.log.head_position + sizeof_log_entry + e.length) where
    -- What is left of `append_to_log` behind an exchange.
    advance-Outcome : Outcome m ls Live e (
        if (advance m).1 == 0
        then (write_entry (advance m).0 e (log_entry_size e.length), head_end (advance m).0)
        else ((advance m).0, 0))
    advance-Outcome = elim advance-cases [
      | inl (failed, none_free) ↦ rw failed (
          full (exchange ls).0 (exchange-Moves ls) none_free no_room (advance-IsStore m ls Live is)
            (λ o _. entry-advance m o))
      | inr (done, head) ↦
          let start = position-advance_done m done in
          rw done (
            stored (exchange ls).0 (exchange-Moves ls)
              (
                head_end-segment (advance m).0 (exchange ls).0 Live (advance-IsStore m ls Live is)
                    head (omega arith),
                head,
              )
              (Stored-from m (advance m).0 Live (λ o _. entry-advance m o)
                (write_entry-Stored (advance m).0 (exchange ls).0 Live
                  (advance-IsStore m ls Live is) head e (omega arith))))
    ]

-- The zero length behind the head position does not change what an outcome means.
Outcome-marked :
    (m : Memory) (ls : Lists) (Live : Offset → Type 0) (e : LogEntry) {r : Memory × Offset}
    → SameLive Live m (mark_unused m)
    → Outcome (mark_unused m) ls Live e r
    → Outcome m ls Live e r
unfolding mark_unused
Outcome-marked m ls Live e same (full ls' moves empty tight store kept) =
    full ls' moves empty tight store (λ o live. kept o live ∙ same o live)
Outcome-marked m ls Live e same (stored ls' moves home st) =
    stored ls' moves home (Stored-from m (mark_unused m) Live same st)

module _ (m : Memory) (ls : Lists) (Live : Offset → Type 0) (is : IsStore m ls Live) (e : LogEntry)
    (small : sizeof_log_entry + e.length ≤ segment_size - sizeof_segment) where
  size_lem : log_entry_size e.length ≡ sizeof_log_entry + e.length
  unfolding log_entry_size
  size_lem = add64_small sizeof_log_entry e.length (omega arith)

  room_lem : head_room m + m.log.head_position ≡ segment_size - sizeof_segment
  unfolding head_room
  room_lem =
      let pos = is.position in
      omega (arith, sub64_small 4072 m.log.head_position is.position (omega arith))

  pub append_to_head-fits :
      m.log.head_position + sizeof_log_entry + e.length ≤ segment_size - sizeof_segment
      → append_to_head m e ≡ (write_entry m e (log_entry_size e.length), head_end m)
  unfolding append_to_head ensure_room
  append_to_head-fits fits =
      rw (le→ltb (head_room m) (log_entry_size e.length) (omega (arith, room_lem, size_lem)))

  append_to_head-Outcome : ls.head ≢ 0 → Outcome m ls Live e (append_to_head m e)
  unfolding append_to_head ensure_room mark_unused
  append_to_head-Outcome ne = elim (Bool-cases (ltb (head_room m) (log_entry_size e.length))) [
    | inl tight ↦
        let less = ltb→lt (head_room m) (log_entry_size e.length) tight in
        rw tight (
          Outcome-marked m ls Live e (mark_unused-same m ls Live is ne) (
            advance-Outcome (mark_unused m) ls Live (mark_unused-IsStore m ls Live is ne) e small
              (λ _. omega (arith, room_lem, size_lem))))
    | inr fits ↦
        let le = ltb_false→le (head_room m) (log_entry_size e.length) fits in
        rw fits (
          stored ls (Moves-refl ls)
            (head_end-segment m ls Live is ne (omega (arith, room_lem, size_lem)), ne)
            (write_entry-Stored m ls Live is ne e (omega (arith, room_lem, size_lem))))
  ]

ensure_head-none : (m : Memory) → m.log.head_segment ≡ 0 → ensure_head m ≡ advance m
unfolding ensure_head offset_to_pointer
ensure_head-none m h = rw ((==_iff m.log.head_segment 0).1 h, ensure_head)

pub ensure_head-some : (m : Memory) → m.log.head_segment ≢ 0 → ensure_head m ≡ (m, 0)
unfolding ensure_head offset_to_pointer
ensure_head-some m h = rw (==_ne m.log.head_segment 0 h, ensure_head)

module _ (m : Memory) (ls : Lists) (Live : Offset → Type 0) (is : IsStore m ls Live) (e : LogEntry)
    (small : sizeof_log_entry + e.length ≤ segment_size - sizeof_segment) where
  without_head-Outcome : ls.head ≡ 0 → Outcome m ls Live e (append_to_log m e)
  unfolding append_to_log
  without_head-Outcome none_left =
      rw (ensure_head-none m (is.log.head ∙ none_left)) (elim (advance-cases m ls Live is) [
        | inl (failed, none_free) ↦ rw failed (
            full (exchange ls).0 (exchange-Moves ls) none_free (λ ne. absurd (ne none_left))
              (advance-IsStore m ls Live is) (λ o _. entry-advance m o))
        | inr (done, head) ↦
            let start = position-advance_done m done in
            let is' = advance-IsStore m ls Live is in
            rw
              (
                done,
                append_to_head-fits (advance m).0 (exchange ls).0 Live is' e small (omega arith),
              )
              (stored (exchange ls).0 (exchange-Moves ls)
                (head_end-segment (advance m).0 (exchange ls).0 Live is' head (omega arith), head)
                (Stored-from m (advance m).0 Live (λ o _. entry-advance m o)
                  (write_entry-Stored (advance m).0 (exchange ls).0 Live is' head e (omega arith))))
      ])

  -- The memory holds the log's lists, places the live entries, and the new entry fits into a
  -- segment. Then `append_to_log` either stores the entry at a nonzero offset, in the head
  -- segment, which is not free, and clear of every live entry; or it returns 0, no segment was
  -- free and the head segment, if there was one, had no room. Either way the live entries stay
  -- in place and read as before, the cleaner's and the emergency segments stay, and no segment
  -- is new.
  pub append_to_log-Outcome : Outcome m ls Live e (append_to_log m e)
  unfolding append_to_log
  append_to_log-Outcome = elim (ℕ_discrete ls.head 0) [
    | yes none_left ↦ without_head-Outcome none_left
    | no some_left ↦
        rw (ensure_head-some m (λ z. some_left (sym is.log.head ∙ z)))
          (append_to_head-Outcome m ls Live is e small some_left)
  ]
