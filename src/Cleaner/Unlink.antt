-- ===== src/Cleaner/Unlink.antt =====
-- project/cleaner.c: the search for a segment by its id and its removal from a list, which three
-- functions share.
use log_heap_pmem.Base.{
  ℕ, zero, suc, ◌<◌, ◌≡◌, ◌≢◌, refl, sym, ◌∙◌, List, [], ◌∷◌, ◌++◌, arith, ◌==◌, if◌then◌else◌, ◌∈◌,
  ◌∉◌, has-append, ==_ne, ==_refl, true, false, Distinct, last_or, length, ok,
}
use log_heap_pmem.Types.{Offset, Segments, SegmentList, set_next, write, offset_to_pointer}
use log_heap_pmem.Types.Chain.{
  Chain, IsList, Chain-append, Chain-extend, Chain-set_next, ∉-ne, last_or-mem, Chain-last_ne,
}
use log_heap_pmem.Cleaner.{seek, unlink}
use log_heap_pmem.Cleaner.Release.{last_or-join, append_nil}

-- No segment of the list has the id.
abbrev pub Lacks : Segments → ℕ → List ℕ → Type 0
Lacks segs id xs = (a : ℕ) → a ∈ xs → (segs a).id ≢ id

module _ (segs : Segments) where
  Chain-split :
      (p x : Offset) (pre post : List ℕ)
      → Chain segs 0 p (pre ++ x ∷ post)
      → Chain segs x p pre × Chain segs 0 x (x ∷ post)
  Chain-split p x [] post c = (c.0, (refl, c.1, c.2))
  Chain-split p x (y ∷ pre) post c =
      let (a, b) = Chain-split (segs y).next_segment x pre post c.2 in ((c.0, c.1, a), b)

  seek-suc :
      (fuel id : ℕ) (prev s : Offset)
      → s ≢ 0
      → seek (suc fuel) segs id prev s
        ≡ (if (segs s).id == id then ok (prev, s) else seek fuel segs id s (segs s).next_segment)
  unfolding seek offset_to_pointer
  seek-suc fuel id prev s ne = rw (==_ne s 0 ne, seek)

  -- The first segment with the id is found, with the one before it.
  pub seek-finds :
      (fuel id : ℕ) (prev p x : Offset) (pre post : List ℕ)
      → Chain segs 0 p (pre ++ x ∷ post)
      → Lacks segs id pre
      → (segs x).id ≡ id
      → length pre < fuel
      → seek fuel segs id prev p ≡ ok (last_or prev pre, x)
  seek-finds zero id prev p x pre post c out own f = ground arith
  seek-finds (suc fuel) id prev p x [] post c out own f =
      rw c.0 (seek-suc fuel id prev x c.1 ∙ rw own (rw (==_refl id)))
  seek-finds (suc fuel) id prev p x (y ∷ pre) post c out own f = rw c.0 (
      seek-suc fuel id prev y c.1
      ∙ rw (==_ne (segs y).id id (out y (ground arith))) (
          seek-finds fuel id y (segs y).next_segment x pre post c.2 (λ a i. out a (ground arith))
            own (omega arith)))

-- A list without one of its elements.
pub Distinct-split :
    (pre : List ℕ) (x : ℕ) (post : List ℕ)
    → Distinct (pre ++ x ∷ post)
    → Distinct (pre ++ post) × (x ∉ pre ++ post) × Distinct pre × ((a : ℕ) → a ∈ pre → a ∉ post)
Distinct-split [] x post d = (d.1, d.0, tt, λ a i. ground arith)
Distinct-split (y ∷ pre) x post d =
    let (a, b, c, apart) = Distinct-split pre x post d.1 in
    let mem = has-append y pre (x ∷ post) in
    let mem' = has-append y pre post in
    (
      (ground (arith, d.0), a),
      ground (arith, d.0),
      (ground (arith, d.0), c),
      λ i h. ground (arith, d.0, apart i),
    )

pub set_next-same : (segs : Segments) (p q a : Offset) → a ≢ p → set_next segs p q a ≡ segs a
unfolding set_next write
set_next-same segs p q a ne = ground arith

-- What is left of the list when `x` is taken out of it; other segments than those before `x` keep
-- their successors.
pub record Unlinked (segs : Segments) (pre post : List ℕ) (r : Segments × SegmentList)
    : Type 0 where
  pub list : IsList r.0 r.1 (pre ++ post)
  pub same : (a : ℕ) → a ∉ pre → r.0 a ≡ segs a

module _ (segs : Segments) (l : SegmentList) (id : ℕ) (x : Offset) (own : (segs x).id ≡ id) where
  unlink-cases :
      (prev : Offset)
      → l.last ≢ 0
      → unlink segs l id prev x ≡ (
          if (segs l.first).id == id
          then if (segs l.last).id == id
            then ok (segs, record { first = 0; last = 0 })
            else ok (segs, record { first = (segs x).next_segment; last = l.last })
          else ok (
            set_next segs prev (segs x).next_segment,
            record { first = l.first; last = if (segs l.last).id == id then prev else l.last },
          ))
  unfolding unlink offset_to_pointer
  unlink-cases prev ne = rw (==_ne l.last 0 ne, unlink)

  -- The test whether the last segment is the one with the id.
  last_own : l.last ≡ x → ((segs l.last).id == id) ≡ true
  last_own e = rw (e, own) (==_refl id)

  last_other :
      (y : ℕ) (ys : List ℕ)
      → l.last ≡ last_or y ys
      → Lacks segs id (y ∷ ys)
      → ((segs l.last).id == id) ≡ false
  last_other y ys e out =
      rw e (==_ne (segs (last_or y ys)).id id (out (last_or y ys) (last_or-mem y ys)))

  last-Unlinked :
      (z : ℕ) (zs post : List ℕ)
      → l.last ≡ last_or x post
      → Lacks segs id post
      → (if (segs l.last).id == id then last_or z zs else l.last) ≡ last_or 0 (z ∷ zs ++ post)
  last-Unlinked z zs [] e out = rw (last_own e, append_nil zs)
  last-Unlinked z zs (y ∷ ys) e out = rw (last_other y ys e out) (e ∙ sym (last_or-join z zs y ys))

  list_last_ne : (pre post : List ℕ) → IsList segs l (pre ++ x ∷ post) → l.last ≢ 0
  list_last_ne [] post is e = Chain-last_ne segs 0 l.first x post is.chain (sym is.last ∙ e)
  list_last_ne (z ∷ zs) post is e =
      Chain-last_ne segs 0 l.first z (zs ++ x ∷ post) is.chain (sym is.last ∙ e)

  pub unlink-Unlinked :
      (pre post : List ℕ)
      → IsList segs l (pre ++ x ∷ post)
      → Lacks segs id pre
      → Lacks segs id post
      → (r : Segments × SegmentList) × (unlink segs l id (last_or 0 pre) x ≡ ok r)
        × Unlinked segs pre post r
  unlink-Unlinked [] [] is out out' =
      let first : ((segs l.first).id == id) ≡ true = rw (is.chain.0, own) (==_refl id) in
      (
        (segs, record { first = 0; last = 0 }),
        unlink-cases 0 (list_last_ne [] [] is) ∙ rw (first, last_own is.last),
        record { list = record { chain = refl; last = refl; distinct = tt }; same = λ a h. refl },
      )
  unlink-Unlinked [] (y ∷ ys) is out out' =
      let first : ((segs l.first).id == id) ≡ true = rw (is.chain.0, own) (==_refl id) in
      (
        (segs, record { first = (segs x).next_segment; last = l.last }),
        unlink-cases 0 (list_last_ne [] (y ∷ ys) is) ∙ rw (first, last_other y ys is.last out'),
        record {
          list = record { chain = is.chain.2; last = is.last; distinct = is.distinct.1 };
          same = λ a h. refl;
        },
      )
  unlink-Unlinked (z ∷ zs) post is out out' =
      let first : ((segs l.first).id == id) ≡ false =
        rw (is.chain.0) (==_ne (segs z).id id (out z (ground arith))) in
      let prev = last_or z zs in
      let next = (segs x).next_segment in
      let (before, behind) = Chain-split segs l.first x (z ∷ zs) post is.chain in
      let (distinct, _, own_distinct, apart) = Distinct-split (z ∷ zs) x post is.distinct in
      let last : l.last ≡ last_or x post = is.last ∙ last_or-join z zs x post in
      (
        (
          set_next segs prev next,
          record { first = l.first; last = if (segs l.last).id == id then prev else l.last },
        ),
        unlink-cases prev (list_last_ne (z ∷ zs) post is) ∙ rw first,
        record {
          list = record {
            chain =
                Chain-append (set_next segs prev next) 0 next l.first (z ∷ zs) post
                  (Chain-extend segs x l.first next z zs before own_distinct)
                  (Chain-set_next segs 0 next post prev next (apart prev (last_or-mem z zs))
                    behind.2);
            last = last-Unlinked z zs post last out';
            distinct = distinct;
          };
          same = λ a h. set_next-same segs prev next a (∉-ne a prev (z ∷ zs) h (last_or-mem z zs));
        },
      )
