-- ===== src/Store/Exchange.antt =====
-- project/log.c: the live entries under an exchange of the head segment.
use log_heap_pmem.Base.{ℕ, ◌≤◌, ◌≡◌, ◌≢◌, ◌⊎◌, refl, arith, List, [], ◌∷◌, ◌∉◌, has-append}
use log_heap_pmem.Types.{Offset, Memory, attach, segment_of}
use log_heap_pmem.Log.{
  append_head_to_used_segments_and_get_new_head_segment, retire_head, take_free,
}
use log_heap_pmem.Log.Lists.{Lists, places, retire, fetch_from, exchange}
use log_heap_pmem.Log.Head.{append_head-exchange}
use log_heap_pmem.Store.{IsStore, Moves}
use log_heap_pmem.Store.Segments.{segment_of-ne}

abbrev advance : Memory → Memory × ℕ
advance = append_head_to_used_segments_and_get_new_head_segment

-- The exchange writes no entry.
pub entry-advance : (m : Memory) (off : Offset) → (advance m).0.entry off ≡ m.entry off
unfolding append_head_to_used_segments_and_get_new_head_segment retire_head take_free attach
entry-advance m off = ground arith

position-advance :
    (m : Memory)
    → ((advance m).0.log.head_position ≡ 0)
      ⊎ ((advance m).0.log.head_position ≡ m.log.head_position)
unfolding append_head_to_used_segments_and_get_new_head_segment retire_head take_free attach
position-advance m = ground arith

places-retire : (a : ℕ) (ls : Lists) → a ≢ 0 → places a (retire ls) ≤ places a ls
unfolding retire
places-retire a ls ne = ground (arith, has-append a ls.used (ls.head ∷ []))

places-fetch_from :
    (a : ℕ) (fs : List ℕ) (ls : Lists)
    → ls.free ≡ fs
    → a ≢ 0
    → 1 ≤ places a (fetch_from fs ls).0
    → 1 ≤ places a ls
unfolding fetch_from
places-fetch_from a [] ls e ne h = ground arith
places-fetch_from a (f ∷ fs) ls e ne h = rw e (ground arith)

-- Every segment was somewhere before the exchange.
places-exchange : (a : ℕ) (ls : Lists) → a ≢ 0 → 1 ≤ places a (exchange ls).0 → 1 ≤ places a ls
unfolding exchange
places-exchange a ls ne h =
    omega (arith, places-retire a ls ne, places-fetch_from a (retire ls).free (retire ls) refl ne h)

pub free-retire : (ls : Lists) → (retire ls).free ≡ ls.free
unfolding retire
free-retire ls = ground arith

-- The free segments only lose their first one, which becomes the head.
free-fetch_from :
    (a : ℕ) (fs : List ℕ) (ls : Lists)
    → ls.free ≡ fs
    → a ∉ ls.free
    → a ≢ 0
    → (a ∉ (fetch_from fs ls).0.free) × (a ≢ (fetch_from fs ls).0.head)
unfolding fetch_from
free-fetch_from a [] ls e out ne = (out, ne)
free-fetch_from a (f ∷ fs) ls e out ne =
    let out' : a ∉ f ∷ fs = rw e at out in (ground arith, ground arith)

pub advance-IsStore :
    (m : Memory) (ls : Lists) (Live : Offset → Type 0)
    → IsStore m ls Live
    → IsStore (advance m).0 (exchange ls).0 Live
unfolding exchange
advance-IsStore m ls Live is = record {
  log = (append_head-exchange m ls is.log).0;
  position = omega (arith, position-advance m, is.position);
  segments = λ a ne in_some. is.segments a ne (places-exchange a ls ne in_some);
  placed = λ off live.
      let old = is.placed off live in
      let kept =
        free-fetch_from (segment_of off) (retire ls).free (retire ls) refl
          (rw (free-retire ls) old.not_free) (omega (arith, segment_of-ne off)) in
      record {
        segment = old.segment;
        above = old.above;
        below = rw (entry-advance m off) old.below;
        not_free = kept.0;
        behind = λ e. absurd (kept.1 e);
      };
}

exchange-cleaner : (ls : Lists) → (exchange ls).0.cleaner ≡ ls.cleaner
unfolding exchange retire fetch_from
exchange-cleaner ls = ground arith

exchange-emergency : (ls : Lists) → (exchange ls).0.emergency ≡ ls.emergency
unfolding exchange retire fetch_from
exchange-emergency ls = ground arith

pub exchange-Moves : (ls : Lists) → Moves ls (exchange ls).0
exchange-Moves ls = record {
  cleaner = exchange-cleaner ls;
  emergency = exchange-emergency ls;
  fewer = λ a ne h. places-exchange a ls ne h;
}

pub Moves-refl : (ls : Lists) → Moves ls ls
Moves-refl ls = record { cleaner = refl; emergency = refl; fewer = λ a ne h. h }
