-- ===== src/Pool/Resources.antt =====
-- What `init_pmem` (project/log_pmem.c) leaves open.
use log_heap_pmem.Base.{
  none, ℕ, ◌≡◌, ◌∙◌, ap, arith, Bool, true, Option, some, ◌==◌, ◌&&◌, not, if◌then◌else◌, Run, ok,
  >>=-eq-ok, Bool-cases, inl, inr,
}
use log_heap_pmem.Types.{Memory}
use log_heap_pmem.Glib.{GHashTable}
use log_heap_pmem.Persist.{HashFile}
use log_heap_pmem.Persist.Mapping.{Calls, Handles, nothing_open, mapped}
use log_heap_pmem.Pool.{Opened, open_heap, init_pmem}
use log_heap_pmem.Pool.Mapping.{open_mapping, let_go, pool_size}

-- A pool that is open: its path, its descriptor and its mapping.
abbrev pub pool_open : Handles
pool_open = record mapped { path = true }

-- What a failed `init_pmem` holds.
abbrev pub left_open : Calls → Bool → Handles
left_open calls malloc =
    if calls.open_file && not malloc then record nothing_open { fd = true } else nothing_open

abbrev before_end : Handles
before_end = record { path = true; fd = true; config = true; source = true; map = true }

open_mapping-handles :
    (calls : Calls) (malloc : Bool) (n : ℕ)
    → open_mapping calls malloc n ≡ (
        if (open_mapping calls malloc n).1 == 0
        then (before_end, 0)
        else (left_open calls malloc, 1))
unfolding open_mapping
open_mapping-handles calls malloc n = ground arith

open_mapping-malloc :
    (calls : Calls) (malloc : Bool) (n : ℕ)
    → (open_mapping calls malloc n).1 ≡ 0
    → left_open calls malloc ≡ nothing_open
unfolding open_mapping
open_mapping-malloc calls malloc n h = ground arith

let_go-handles :
    (calls : Calls)
    → let_go calls before_end
      ≡ (if (let_go calls before_end).1 == 0 then (pool_open, 0) else (nothing_open, 1))
unfolding let_go
let_go-handles calls = ground arith

module _ (glib : GHashTable) where
  let_go-result :
      (calls : Calls) (malloc : Bool) (s : Option (Opened glib)) (h : Handles) (r : ℕ)
      (x : Option (Opened glib))
      → left_open calls malloc ≡ nothing_open
      → ◌≡◌ {A = Run ((Option (Opened glib) × Handles) × ℕ)}
          (ok ((x, (let_go calls before_end).0), (let_go calls before_end).1))
          (ok ((s, h), r))
      → h ≡ (if r == 0 then pool_open else left_open calls malloc)
  let_go-result calls malloc s h r x nothing_left last =
      elim (Bool-cases ((let_go calls before_end).1 == 0)) [
        | inl good ↦
            let e : let_go calls before_end ≡ (pool_open, 0) = let_go-handles calls ∙ rw good in
            let last' = rw e at last in ground (arith, last')
        | inr bad ↦
            let e : let_go calls before_end ≡ (nothing_open, 1) = let_go-handles calls ∙ rw bad in
            let last' = rw e at last in ground (arith, last')
      ]

  -- Whichever calls fail, a run of `init_pmem` that returns leaves open just the path, the descriptor
  -- and the mapping if it reports 0; if it reports another result, nothing, but for the descriptor if
  -- the file was opened and `malloc` failed.
  pub init_pmem-handles :
      (fuel steps : ℕ) (calls hash_calls : Calls) (malloc : Bool) (create : ℕ → Bool) (map_size : ℕ)
      (m : Memory) (file : Option HashFile) (s : Option (Opened glib)) (h : Handles) (r : ℕ)
      → init_pmem glib fuel steps calls hash_calls malloc create map_size m file ≡ ok ((s, h), r)
      → h ≡ (if r == 0 then pool_open else left_open calls malloc)
  unfolding init_pmem
  init_pmem-handles fuel steps calls hash_calls malloc create map_size m file s h r run =
      let start = open_mapping-handles calls malloc map_size in
      elim (Bool-cases ((open_mapping calls malloc map_size).1 == 0)) [
        | inl good ↦
            let e : open_mapping calls malloc map_size ≡ (before_end, 0) = start ∙ rw good in
            let run' = rw e at run in
            let (x, _, last) =
              >>=-eq-ok
                (open_heap glib fuel steps hash_calls malloc create (pool_size map_size) m file) _
                run' in
            let nothing_left =
              open_mapping-malloc calls malloc map_size (ap (λ (o : Handles × ℕ). o.1) e) in
            let given = if (let_go calls before_end).1 == 0 then some x else none in
            let_go-result calls malloc s h r given nothing_left last
        | inr bad ↦
            let e : open_mapping calls malloc map_size ≡ (left_open calls malloc, 1) =
              start ∙ rw bad in
            let run' = rw e at run in ground (arith, run')
      ]
