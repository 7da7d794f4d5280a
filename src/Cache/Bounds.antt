-- ===== src/Cache/Bounds.antt =====
-- The accounting of pkg/persistence/recordcache/recordcache.go.
use cloudetcd.Base.{
  ℕ, zero, suc, ◌+◌, ◌-◌, ◌≤◌, ◌≡◌, refl, false, ◌&&◌, List, [], ◌∷◌, Option, none, some, arith,
  length, ltb, nat_beq, if◌then◌else◌, Bool-cases, inl, inr, All, ◌⊎◌,
}
use cloudetcd.Event.{LogRecord}
use cloudetcd.Cache.{
  Item, Cache, record_size, element, without, remove_element, back, evict_oldest, evict_loop, store,
  put,
}

abbrev pub sizes : List Item → ℕ
sizes [] = 0
sizes (it ∷ items) = it.size + sizes items

-- No two elements have one revision.
abbrev pub AreDistinct : List Item → Type 0
AreDistinct [] = Unit
AreDistinct (it ∷ items) = (element it.revision items ≡ none) × AreDistinct items

-- `used` is the sum of the sizes, each size is that of its record, revisions are distinct, and the
-- budget is kept, except that one element alone may be larger.
pub record IsValid (c : Cache) : Type 0 where
  pub counted : c.used ≡ sizes c.ll
  pub sized : All (λ it. it.size ≡ record_size it.log_record) c.ll
  pub distinct : AreDistinct c.ll
  pub bounded : (c.budget ≡ 0) ⊎ ((c.used ≤ c.budget) ⊎ (length c.ll ≤ 1))

pub element-revision : (r : ℕ) (l : List Item) (it : Item) → element r l ≡ some it → it.revision ≡ r
unfolding element
element-revision r [] it h = ground arith
element-revision r (x ∷ l) it h = ground (arith, element-revision r l it)

pub sizes-without :
    (r : ℕ) (l : List Item) (it : Item)
    → element r l ≡ some it
    → sizes (without r l) + it.size ≡ sizes l
unfolding element without
sizes-without r [] it h = ground arith
sizes-without r (x ∷ l) it h = ground (arith, sizes-without r l it)

pub length-without :
    (r : ℕ) (l : List Item) (it : Item)
    → element r l ≡ some it
    → length (without r l) + 1 ≡ length l
unfolding element without
length-without r [] it h = ground arith
length-without r (x ∷ l) it h = ground (arith, length-without r l it)

-- Taking one element out hides that revision and no other.
pub element-without :
    (r q : ℕ) (l : List Item)
    → AreDistinct l
    → element q (without r l) ≡ (if nat_beq r q then none else element q l)
unfolding element without
element-without r q [] d = ground arith
element-without r q (x ∷ l) d = ground (arith, element-without r q l d.1)

pub AreDistinct-without : (r : ℕ) (l : List Item) → AreDistinct l → AreDistinct (without r l)
unfolding without
AreDistinct-without r [] d = tt
AreDistinct-without r (x ∷ l) d = elim (Bool-cases (nat_beq x.revision r)) [
  | inl here ↦ rw (here, without) d.1
  | inr beyond ↦
      rw (beyond, without)
        (ground (arith, element-without r x.revision l d.1), AreDistinct-without r l d.1)
]

pub All-without : (P : Item → Type 0) (r : ℕ) (l : List Item) → All P l → All P (without r l)
unfolding without
All-without P r [] h = tt
All-without P r (x ∷ l) h = elim (Bool-cases (nat_beq x.revision r)) [
  | inl here ↦ rw (here, without) h.1
  | inr beyond ↦ rw (beyond, without) (h.0, All-without P r l h.1)
]

pub All-element :
    (P : Item → Type 0) (r : ℕ) (l : List Item) (it : Item) → All P l → element r l ≡ some it → P it
unfolding element
All-element P r [] it h e = absurd (ground arith)
All-element P r (x ∷ l) it h e = elim (Bool-cases (nat_beq x.revision r)) [
  | inl here ↦ let same : x ≡ it = ground arith in rw same at h.0
  | inr beyond ↦ All-element P r l it h.1 (ground arith)
]

-- What holds while the loop evicts: all but the bound.
pub record IsCounted (c : Cache) : Type 0 where
  pub counted : c.used ≡ sizes c.ll
  pub sized : All (λ it. it.size ≡ record_size it.log_record) c.ll
  pub distinct : AreDistinct c.ll

pub remove_element-IsCounted :
    (c : Cache) (it : Item)
    → element it.revision c.ll ≡ some it
    → IsCounted c
    → IsCounted (remove_element c it)
unfolding remove_element
remove_element-IsCounted c it e v = record {
  counted = omega (arith, v.counted, sizes-without it.revision c.ll it e);
  sized = All-without _ it.revision c.ll v.sized;
  distinct = AreDistinct-without it.revision c.ll v.distinct;
}

pub element-back :
    (l : List Item) (it : Item) → AreDistinct l → back l ≡ some it → element it.revision l ≡ some it
unfolding back element
element-back [] it d e = ground arith
element-back (x ∷ []) it d e = ground arith
element-back (x ∷ x' ∷ l) it d e = ground (arith, element-back (x' ∷ l) it d.1 e)

pub back-found : (x : Item) (l : List Item) → (it : Item) × (back (x ∷ l) ≡ some it)
unfolding back
back-found x [] = (x, refl)
back-found x (x' ∷ l) = back-found x' l

AreDistinct-counted : (c : Cache) → IsCounted c → AreDistinct c.ll
AreDistinct-counted c v = v.distinct

-- A round on a list with an element takes one out.
evict_oldest-IsCounted :
    (c : Cache) (x : Item) (l : List Item)
    → c.ll ≡ x ∷ l
    → IsCounted c
    → IsCounted (evict_oldest c)
      × (length (evict_oldest c).ll + 1 ≡ length c.ll)
      × ((evict_oldest c).budget ≡ c.budget)
unfolding evict_oldest
evict_oldest-IsCounted c x l e v =
    let (it, last) = back-found x l in
    let last' : back c.ll ≡ some it = rw e last in
    let found = element-back c.ll it v.distinct last' in
    rw (last', evict_oldest)
      (
        remove_element-IsCounted c it found v,
        unfold remove_element in length-without it.revision c.ll it found,
        unfold remove_element in refl,
      )

abbrev IsBounded : Cache → Type 0
IsBounded c = (c.budget ≡ 0) ⊎ ((c.used ≤ c.budget) ⊎ (length c.ll ≤ 1))

-- The loop ends within its fuel: the budget is kept, or one element is left.
evict_loop-IsValid :
    (f : ℕ) (c : Cache)
    → length c.ll ≤ f
    → IsCounted c
    → IsCounted (evict_loop f c) × IsBounded (evict_loop f c)
unfolding evict_loop
evict_loop-IsValid zero c h v = (v, inr (inr (omega arith)))
evict_loop-IsValid (suc f) c h v = by_list c.ll refl (evict_loop-IsValid f (evict_oldest c))
  where
    by_list :
        (l : List Item)
        → c.ll ≡ l
        → (length (evict_oldest c).ll ≤ f
            → IsCounted (evict_oldest c)
            → IsCounted (evict_loop f (evict_oldest c)) × IsBounded (evict_loop f (evict_oldest c)))
        → IsCounted (evict_loop (suc f) c) × IsBounded (evict_loop (suc f) c)
    by_list [] e rest =
        let few : ltb 1 (length c.ll) ≡ false = rw e refl in
        let stops : (ltb 0 c.budget && ltb c.budget c.used && ltb 1 (length c.ll)) ≡ false =
          ground arith in
        rw (stops, evict_loop) (v, inr (inr (rw e (omega arith))))
    by_list (x ∷ l) e rest =
        elim (Bool-cases (ltb 0 c.budget && ltb c.budget c.used && ltb 1 (length c.ll))) [
          | inl on ↦
              let (v', shorter, _) = evict_oldest-IsCounted c x l e v in
              rw (on, evict_loop) (rest (omega (arith, shorter)) v')
          | inr off ↦ rw (off, evict_loop) (v, ground arith)
        ]

pub store-IsCounted :
    (c c' : Cache) (r : ℕ) (log_record : LogRecord)
    → IsCounted c
    → store c r log_record (record_size log_record) ≡ some c'
    → IsCounted c'
unfolding store
store-IsCounted c c' r log_record v h = by_element (element r c.ll) refl
  where
    by_element : (o : Option Item) → element r c.ll ≡ o → IsCounted c'
    by_element none e =
        let same : c' ≡ record c {
          used = c.used + record_size log_record;
          ll =
              record { revision = r; log_record = log_record; size = record_size log_record }
              ∷ c.ll;
        } =
          ground arith in
        rw same (record {
          counted = omega (arith, v.counted);
          sized = (refl, v.sized);
          distinct = (e, v.distinct);
        })
    by_element (some it) e =
        let same : c' ≡ record c {
          used = c.used + record_size log_record - it.size;
          ll =
              record { revision = r; log_record = log_record; size = record_size log_record }
              ∷ without r c.ll;
        } =
          ground arith in
        let absent : element r (without r c.ll) ≡ none =
          ground (arith, element-without r r c.ll v.distinct) in
        rw same (record {
          counted = omega (arith, v.counted, sizes-without r c.ll it e);
          sized = (refl, All-without _ r c.ll v.sized);
          distinct = (absent, AreDistinct-without r c.ll v.distinct);
        })

-- Put keeps the accounts: `used` is the sum of the sizes of the records held, no revision is held
-- twice, and afterwards the budget is kept or at most one record is left.
pub put-IsValid :
    (c : Cache) (r : ℕ) (log_record : LogRecord) → IsValid c → IsValid (put c r log_record)
unfolding put
put-IsValid c r log_record v = by_store (store c r log_record (record_size log_record)) refl
  where
    by_store :
        (o : Option Cache)
        → store c r log_record (record_size log_record) ≡ o
        → IsValid (put c r log_record)
    by_store none e = rw (e, put) v
    by_store (some c') e =
        let counted =
          store-IsCounted c c' r log_record
            (record { counted = v.counted; sized = v.sized; distinct = v.distinct }) e in
        let (kept, bounded) = evict_loop-IsValid (length c'.ll) c' (omega arith) counted in
        rw (e, put)
          (record {
            counted = kept.counted;
            sized = kept.sized;
            distinct = kept.distinct;
            bounded = bounded;
          })
