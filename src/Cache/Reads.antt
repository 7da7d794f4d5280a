-- ===== src/Cache/Reads.antt =====
-- What can be read after a call of pkg/persistence/recordcache/recordcache.go.
use cloudetcd.Base.{
  ℕ, ◌+◌, ◌-◌, ◌≤◌, ◌≡◌, refl, ap, ◌∙◌, List, ◌∷◌, Option, none, some, arith, length, nat_beq,
  if◌then◌else◌, inl, inr, ◌⊎◌,
}
use cloudetcd.Event.{LogRecord}
use cloudetcd.Cache.{Item, Cache, element, without, get, remove_element, remove}
use cloudetcd.Cache.Bounds.{
  IsValid, sizes-without, length-without, element-revision, element-without, AreDistinct-without,
  All-without, All-element, remove_element-IsCounted,
}

element_self :
    (r : ℕ) (l : List Item) (it : Item) → element r l ≡ some it → element it.revision l ≡ some it
element_self r l it e = ap (λ q. element q l) (element-revision r l it e) ∙ e

-- The answer of a read and the order of use that it leaves, from the element that it finds.
abbrev pub IsUsed : Cache → ℕ → Option Item → Cache × Option LogRecord → Type 0
IsUsed c r none got = (got.1 ≡ none) × (got.0.ll ≡ c.ll)
IsUsed c r (some it) got =
    (it.revision ≡ r) × (got.1 ≡ some it.log_record) × (got.0.ll ≡ it ∷ without r c.ll)

-- Get returns the record that the cache holds under the revision, and makes its element the most
-- recently used one, before the others in their order; for a revision that is not there it returns
-- nothing and moves nothing. It keeps the accounts, and the element of every revision stays.
pub get-IsValid :
    (c : Cache) (r : ℕ)
    → IsValid c
    → IsValid (get c r).0
      × ((q : ℕ) → element q (get c r).0.ll ≡ element q c.ll)
      × IsUsed c r (element r c.ll) (get c r)
unfolding get
get-IsValid c r v = by_element (element r c.ll) refl
  where
    by_element :
        (o : Option Item)
        → element r c.ll ≡ o
        → IsValid (get c r).0
          × ((q : ℕ) → element q (get c r).0.ll ≡ element q c.ll)
          × IsUsed c r o (get c r)
    by_element none e = rw (e, get) (v, λ q. refl, (refl, refl))
    by_element (some it) e =
        let key : it.revision ≡ r = element-revision r c.ll it e in
        let gone = element-without r r c.ll v.distinct in
        rw (e, get)
          (
            record {
              counted = omega (arith, v.counted, sizes-without r c.ll it e);
              sized = (All-element _ r c.ll it v.sized e, All-without _ r c.ll v.sized);
              distinct = (rw key (ground arith), AreDistinct-without r c.ll v.distinct);
              bounded = bound (length-without r c.ll it e) v.bounded;
            },
            λ q. unfold element in ground (arith, element-without r q c.ll v.distinct),
            (key, refl, refl),
          )
      where
        bound :
            length (without r c.ll) + 1 ≡ length c.ll
            → (c.budget ≡ 0) ⊎ ((c.used ≤ c.budget) ⊎ (length c.ll ≤ 1))
            → (c.budget ≡ 0) ⊎ ((c.used ≤ c.budget) ⊎ (length (it ∷ without r c.ll) ≤ 1))
        bound l (inl b) = inl b
        bound l (inr (inl b)) = inr (inl b)
        bound l (inr (inr b)) = inr (inr (omega arith))

-- Remove keeps the accounts, and hides the revision that it is given and no other.
pub remove-IsValid :
    (c : Cache) (r : ℕ)
    → IsValid c
    → IsValid (remove c r)
      × ((q : ℕ) → element q (remove c r).ll ≡ (if nat_beq r q then none else element q c.ll))
unfolding remove
remove-IsValid c r v = by_element (element r c.ll) refl
  where
    by_element :
        (o : Option Item)
        → element r c.ll ≡ o
        → IsValid (remove c r)
          × ((q : ℕ) → element q (remove c r).ll ≡ (if nat_beq r q then none else element q c.ll))
    by_element none e = rw (e, remove) (v, λ q. ground arith)
    by_element (some it) e =
        let key : it.revision ≡ r = element-revision r c.ll it e in
        let kept =
          remove_element-IsCounted c it (element_self r c.ll it e)
            (record { counted = v.counted; sized = v.sized; distinct = v.distinct }) in
        rw (e, remove)
          (
            record {
              counted = kept.counted;
              sized = kept.sized;
              distinct = kept.distinct;
              bounded = unfold remove_element in bound key (length-without r c.ll it e) v.bounded;
            },
            λ q. unfold remove_element in rw key (element-without r q c.ll v.distinct),
          )
      where
        bound :
            it.revision ≡ r
            → length (without r c.ll) + 1 ≡ length c.ll
            → (c.budget ≡ 0) ⊎ ((c.used ≤ c.budget) ⊎ (length c.ll ≤ 1))
            → (c.budget ≡ 0)
              ⊎ ((c.used - it.size ≤ c.budget) ⊎ (length (without it.revision c.ll) ≤ 1))
        bound key l (inl b) = inl b
        bound key l (inr (inl b)) = inr (inl (omega arith))
        bound key l (inr (inr b)) = inr (inr (omega (arith, ap (λ q. length (without q c.ll)) key)))
