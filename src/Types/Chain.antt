-- ===== src/Types/Chain.antt =====
-- Segment lists in memory: which offsets a chain of `next_segment` runs through.
use log_heap_pmem.Base.{
  ℕ, ◌≡◌, ◌≢◌, refl, ap, sym, subst, ◌∙◌, List, [], ◌∷◌, ◌++◌, arith, has, ◌∈◌, ◌∉◌, Distinct,
  last_or, has-append, last_or-append,
}
use log_heap_pmem.Types.{
  Offset, Segment, SegmentList, Segments, set_next, set_used_space, attach, drop_first,
}

-- From `p` the `next_segment` fields lead through `xs` to `stop`.
abbrev pub Chain : Segments → Offset → Offset → List ℕ → Type 0
Chain segs stop p [] = p ≡ stop
Chain segs stop p (x ∷ xs) = (p ≡ x) × (x ≢ 0) × Chain segs stop (segs x).next_segment xs

-- The list's two ends, and the segments between them, each once.
pub record IsList (segs : Segments) (l : SegmentList) (xs : List ℕ) : Type 0 where
  pub chain : Chain segs 0 l.first xs
  pub last : l.last ≡ last_or 0 xs
  pub distinct : Distinct xs

pub ∉-ne : (a b : ℕ) (xs : List ℕ) → a ∉ xs → b ∈ xs → a ≢ b
∉-ne a b xs out i e = ground (arith, ap (λ (t : ℕ). has t xs) e)

-- The last element is an element.
pub last_or-mem : (x : ℕ) (xs : List ℕ) → last_or x xs ∈ x ∷ xs
last_or-mem x [] = ground arith
last_or-mem x (y ∷ xs) = ground (arith, last_or-mem y xs)

pub Chain-frame :
    (segs segs' : Segments) (stop p : Offset) (xs : List ℕ)
    → ((a : ℕ) → a ∈ xs → (segs' a).next_segment ≡ (segs a).next_segment)
    → Chain segs stop p xs
    → Chain segs' stop p xs
Chain-frame segs segs' stop p [] same c = c
Chain-frame segs segs' stop p (x ∷ xs) same c = (
  c.0,
  c.1,
  ground (
    arith,
    same x,
    Chain-frame segs segs' stop (segs x).next_segment xs (λ a i. same a (ground arith)) c.2,
  ),
)

pub IsList-frame :
    (segs segs' : Segments) (l : SegmentList) (xs : List ℕ)
    → ((a : ℕ) → a ∈ xs → (segs' a).next_segment ≡ (segs a).next_segment)
    → IsList segs l xs
    → IsList segs' l xs
IsList-frame segs segs' l xs same is = record {
  chain = Chain-frame segs segs' 0 l.first xs same is.chain;
  last = is.last;
  distinct = is.distinct;
}

pub Chain-last_ne :
    (segs : Segments) (stop p : Offset) (x : ℕ) (xs : List ℕ)
    → Chain segs stop p (x ∷ xs)
    → last_or x xs ≢ 0
Chain-last_ne segs stop p x [] c = c.1
Chain-last_ne segs stop p x (y ∷ xs) c = Chain-last_ne segs stop (segs x).next_segment y xs c.2

-- A `next_segment` that is not in the chain may change.
pub Chain-set_next :
    (segs : Segments) (stop p : Offset) (xs : List ℕ) (a q : Offset)
    → a ∉ xs
    → Chain segs stop p xs
    → Chain (set_next segs a q) stop p xs
unfolding set_next
Chain-set_next segs stop p xs a q out c =
    Chain-frame segs (set_next segs a q) stop p xs (λ b i. grind (arith, ∉-ne)) c

-- A chain that is redirected at its last segment.
pub Chain-extend :
    (segs : Segments) (stop p q : Offset) (x : ℕ) (xs : List ℕ)
    → Chain segs stop p (x ∷ xs)
    → Distinct (x ∷ xs)
    → Chain (set_next segs (last_or x xs) q) q p (x ∷ xs)
unfolding set_next
Chain-extend segs stop p q x [] c dist = (c.0, c.1, ground arith)
Chain-extend segs stop p q x (y ∷ xs) c dist =
    let ne : x ≢ last_or y xs = ∉-ne x (last_or y xs) (y ∷ xs) dist.0 (last_or-mem y xs) in
    (c.0, c.1, ground (arith, Chain-extend segs stop (segs x).next_segment q y xs c.2 dist.1))

pub Chain-append :
    (segs : Segments) (stop mid p : Offset) (xs ys : List ℕ)
    → Chain segs mid p xs
    → Chain segs stop mid ys
    → Chain segs stop p (xs ++ ys)
Chain-append segs stop mid p [] ys c d = rw c d
Chain-append segs stop mid p (x ∷ xs) ys c d =
    (c.0, c.1, Chain-append segs stop mid (segs x).next_segment xs ys c.2 d)

pub Distinct-snoc : (xs : List ℕ) (p : ℕ) → Distinct xs → p ∉ xs → Distinct (xs ++ p ∷ [])
Distinct-snoc [] p d out = (refl, tt)
Distinct-snoc (x ∷ xs) p d out =
    (ground (arith, has-append x xs (p ∷ [])), Distinct-snoc xs p d.1 (ground arith))

module _ (segs : Segments) (l : SegmentList) where
  -- After `attach` the old list leads to the new segment, which is the last one.
  pub attach-Chain :
      (xs : List ℕ) (p : Offset)
      → IsList segs l xs
      → Chain (attach segs l p).0 p (attach segs l p).1.first xs
  unfolding attach
  attach-Chain [] p is = ground (arith, is.last)
  attach-Chain (x ∷ xs) p is =
      let ne = Chain-last_ne segs 0 l.first x xs is.chain in
      ground (arith, is.last, Chain-extend segs 0 l.first p x xs is.chain is.distinct)

  -- The first segment of a list that has one stays.
  pub attach-first :
      (x : ℕ) (xs : List ℕ) (p : Offset)
      → IsList segs l (x ∷ xs)
      → (attach segs l p).1.first ≡ l.first
  unfolding attach
  attach-first x xs p is = ground (arith, is.last, Chain-last_ne segs 0 l.first x xs is.chain)

  pub attach-last : (p : Offset) → (attach segs l p).1.last ≡ p
  unfolding attach
  attach-last p = ground arith

  -- `attach` writes the `next_segment` of the former last segment and nothing else.
  pub attach-next :
      (xs : List ℕ) (p a : Offset) → IsList segs l xs → a ∉ xs → (attach segs l p).0 a ≡ segs a
  unfolding attach
  attach-next [] p a is out = ground (arith, is.last)
  attach-next (x ∷ xs) p a is out =
      let ne = ∉-ne a (last_or x xs) (x ∷ xs) out (last_or-mem x xs) in ground (arith, is.last)

  -- `attach` leaves ids and fill levels alone.
  pub attach-fields : (p a : Offset) → ((attach segs l p).0 a).id ≡ (segs a).id
  unfolding attach
  attach-fields p a = ground arith

  pub attach-used_space : (p a : Offset) → ((attach segs l p).0 a).used_space ≡ (segs a).used_space
  unfolding attach
  attach-used_space p a = ground arith

  -- Attaching a segment with no successor makes it the list's last element.
  pub attach-IsList :
      (xs : List ℕ) (p : Offset)
      → IsList segs l xs
      → p ∉ xs
      → p ≢ 0
      → (segs p).next_segment ≡ 0
      → IsList (attach segs l p).0 (attach segs l p).1 (xs ++ p ∷ [])
  attach-IsList xs p is out ne stop = record {
    chain =
        Chain-append (attach segs l p).0 0 p (attach segs l p).1.first xs (p ∷ [])
          (attach-Chain xs p is)
          (refl, ne, ap (λ (s : Segment). s.next_segment) (attach-next xs p p is out) ∙ stop);
    last = attach-last p ∙ sym (last_or-append 0 xs p);
    distinct = Distinct-snoc xs p is.distinct out;
  }

  -- Taking the first segment away leaves the rest.
  pub drop_first-IsList :
      (x : ℕ) (xs : List ℕ)
      → IsList segs l (x ∷ xs)
      → IsList segs (drop_first l (segs x).next_segment) xs
  unfolding drop_first
  drop_first-IsList x [] is = record {
    chain = is.chain.2;
    last = ground (arith, is.chain.2);
    distinct = is.distinct.1;
  }
  drop_first-IsList x (y ∷ xs) is = record {
    chain = is.chain.2;
    last = ground (arith, is.chain.2, is.last);
    distinct = is.distinct.1;
  }

pub set_used_space-next :
    (segs : Segments) (p : Offset) (n : ℕ) (a : Offset)
    → (set_used_space segs p n a).next_segment ≡ (segs a).next_segment
unfolding set_used_space
set_used_space-next segs p n a = ground arith

-- The chain from an offset to NULL is determined.
pub Chain-unique :
    (segs : Segments) (p : Offset) (xs ys : List ℕ)
    → Chain segs 0 p xs
    → Chain segs 0 p ys
    → xs ≡ ys
Chain-unique segs p [] [] c d = refl
Chain-unique segs p [] (y ∷ ys) c d = absurd (d.1 (sym d.0 ∙ c))
Chain-unique segs p (x ∷ xs) [] c d = absurd (c.1 (sym c.0 ∙ d))
Chain-unique segs p (x ∷ xs) (y ∷ ys) (ex, nx, c) (ey, ny, d) =
    let same : x ≡ y = sym ex ∙ ey in
    let d' = subst (λ (a : ℕ). Chain segs 0 (segs a).next_segment ys) (sym same) d in
    cc (same, Chain-unique segs (segs x).next_segment xs ys c d')
