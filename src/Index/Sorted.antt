-- ===== src/Index/Sorted.antt =====
-- Well-formed nodes of pkg/bptree/bptree.go, and what a change of one entry does to lookups.
use cloudetcd.Base.{
  ℕ, suc, ◌≤◌, ◌<◌, ◌≡◌, refl, sym, ◌∙◌, Bytes, Bool, true, List, [], ◌∷◌, arith, length, ltb,
  is_empty, bytes_equal, if◌then◌else◌,
}
use cloudetcd.Index.{Node, end, entry, first, lookup_node}
use cloudetcd.Index.Edge.{under, under_lem, OneMore, under-end}

-- Well-formed: prefixes are not empty, and the first bytes of siblings go up strictly, from `lo`.
abbrev pub IsSorted : ℕ → Node → Type 0
IsSorted lo end = Unit
IsSorted lo (entry p rs tb c rest) =
    (0 < length p) × (lo ≤ first p) × IsSorted 0 c × IsSorted (suc (first p)) rest

lookup-entry :
    (p : Bytes) (rs : List ℕ) (tb : Bool) (c rest : Node) (key : Bytes)
    → lookup_node (entry p rs tb c rest) key ≡ (
        if ltb (first p) (first key)
        then lookup_node rest key
        else if ltb (first key) (first p)
        then []
        else under p rs (lookup_node c) key)
unfolding lookup_node
lookup-entry p rs tb c rest key = rw (← under_lem p rs (lookup_node c) key)

pub lookup-single :
    (x : ℕ) (q : Bytes) (rs : List ℕ) (tb : Bool) (c : Node) (y : ℕ) (j : Bytes)
    → lookup_node (entry (x ∷ q) rs tb c end) (y ∷ j) ≡ under (x ∷ q) rs (lookup_node c) (y ∷ j)
unfolding under lookup_node
lookup-single x q rs tb c y j = ground (arith, lookup-entry (x ∷ q) rs tb c end (y ∷ j))

under-nothing : (p : Bytes) (j : Bytes) → under p [] (lookup_node end) j ≡ []
unfolding under lookup_node
under-nothing [] [] = refl
under-nothing [] (y ∷ j) = refl
under-nothing (x ∷ p) [] = refl
under-nothing (x ∷ p) (y ∷ j) = ground (arith, under-nothing p j)

-- The first byte of a key is below all of the node.
lookup-below :
    (lo : ℕ) (n : Node) (b : ℕ) (key : Bytes)
    → IsSorted lo n
    → b < lo
    → lookup_node n (b ∷ key) ≡ []
lookup-below lo end b key s h = unfold lookup_node in refl
lookup-below lo (entry p rs tb c rest) b key s h =
    ground (arith, lookup-entry p rs tb c rest (b ∷ key))

-- What adding a revision for `b ∷ key` to `n` promises of the new node and the flag.
abbrev pub Added : ℕ → ℕ → Bytes → ℕ → Node → Node × Bool → Type 0
Added r b key lo n result =
    OneMore r (b ∷ key) (lookup_node n) (lookup_node result.0)
    × IsSorted lo result.0
    × (result.1 ≡ is_empty (lookup_node n (b ∷ key)))

leaf-OneMore :
    (r b : ℕ) (key : Bytes) (y : ℕ) (j : Bytes)
    → under (b ∷ key) (r ∷ []) (lookup_node end) (y ∷ j)
      ≡ (if bytes_equal (b ∷ key) (y ∷ j) then r ∷ [] else [])
leaf-OneMore r b key y j =
    under-end (b ∷ key) r [] (lookup_node end) (y ∷ j) ∙ rw (under-nothing (b ∷ key) (y ∷ j))

pub Added-leaf :
    (r b : ℕ) (key : Bytes) (t : Bool) (lo : ℕ)
    → lo ≤ b
    → Added r b key lo end (entry (b ∷ key) (r ∷ []) t end end, true)
unfolding lookup_node
Added-leaf r b key t lo h =
    (λ y j. lookup-single b key (r ∷ []) t end y j ∙ leaf-OneMore r b key y j, omega arith, refl)

pub Added-before :
    (r b : ℕ) (key : Bytes) (t : Bool) (lo : ℕ) (p : Bytes) (rs : List ℕ) (tb : Bool)
    (c rest : Node)
    → lo ≤ b
    → b < first p
    → IsSorted lo (entry p rs tb c rest)
    → Added r b key lo
        (entry p rs tb c rest)
        (entry (b ∷ key) (r ∷ []) t end (entry p rs tb c rest), true)
unfolding bytes_equal
Added-before r b key t lo p rs tb c rest h lt s =
    let old = entry p rs tb c rest in
    (
      λ y j. ground (
        arith,
        lookup-entry (b ∷ key) (r ∷ []) t end old (y ∷ j),
        lookup-entry p rs tb c rest (y ∷ j),
        leaf-OneMore r b key y j,
      ),
      (omega arith, h, tt, (s.0, lt, s.2, s.3)),
      ground (arith, lookup-entry p rs tb c rest (b ∷ key)),
    )

pub Added-beyond :
    (r b : ℕ) (key : Bytes) (lo : ℕ) (p : Bytes) (rs : List ℕ) (tb : Bool) (c rest : Node)
    (result : Node × Bool)
    → first p < b
    → IsSorted lo (entry p rs tb c rest)
    → Added r b key (suc (first p)) rest result
    → Added r b key lo (entry p rs tb c rest) (entry p rs tb c result.0, result.1)
unfolding bytes_equal
Added-beyond r b key lo p rs tb c rest result lt s (more, sorted, is_new) = (
  λ y j. ground (
    arith,
    lookup-entry p rs tb c result.0 (y ∷ j),
    lookup-entry p rs tb c rest (y ∷ j),
    more y j,
  ),
  (s.0, s.1, s.2, sorted),
  ground (arith, lookup-entry p rs tb c rest (b ∷ key)),
)

-- The entry whose prefix starts like the key is replaced by one that starts so too.
pub Added-same :
    (r b : ℕ) (key : Bytes) (lo : ℕ) (p p' : Bytes) (rs rs' : List ℕ) (tb tb' : Bool)
    (c c' rest : Node) (is_new : Bool)
    → first p ≡ b
    → first p' ≡ b
    → 0 < length p'
    → IsSorted lo (entry p rs tb c rest)
    → OneMore r (b ∷ key) (under p rs (lookup_node c)) (under p' rs' (lookup_node c'))
    → IsSorted 0 c'
    → is_new ≡ is_empty (under p rs (lookup_node c) (b ∷ key))
    → Added r b key lo (entry p rs tb c rest) (entry p' rs' tb' c' rest, is_new)
unfolding bytes_equal
Added-same r b key lo p p' rs rs' tb tb' c c' rest is_new e e' pos s more sorted new = (
  λ y j. ground (
    arith,
    lookup-entry p rs tb c rest (y ∷ j),
    lookup-entry p' rs' tb' c' rest (y ∷ j),
    more y j,
  ),
  (pos, omega arith, sorted, rw (e' ∙ sym e) s.3),
  ground (arith, lookup-entry p rs tb c rest (b ∷ key)),
)
