-- ===== src/Index/Edge.antt =====
-- One edge of the radix tree of pkg/bptree/bptree.go, read byte by byte.
use cloudetcd.Base.{
  ℕ, zero, suc, ◌+◌, ◌≤◌, ◌<◌, ◌≡◌, refl, ap, Bytes, List, [], ◌∷◌, ◌++◌, arith, length, take, drop,
  nat_beq, has_prefix, bytes_equal, if◌then◌else◌, Bool-cases, inl, inr,
}
use cloudetcd.Index.{first, common_prefix_len}

-- The revisions of `key` under an edge with the prefix `p`: its own, or what `below` has for the
-- rest of the key.
unfoldable pub under : Bytes → List ℕ → (Bytes → List ℕ) → Bytes → List ℕ
under [] rs below [] = rs
under [] rs below (y ∷ j) = below (y ∷ j)
under (x ∷ p) rs below [] = []
under (x ∷ p) rs below (y ∷ j) = if nat_beq x y then under p rs below j else []

pub under_lem :
    (p : Bytes) (rs : List ℕ) (below : Bytes → List ℕ) (key : Bytes)
    → (if has_prefix key p
        then (if nat_beq (length key) (length p) then rs else below (drop (length p) key))
        else [])
      ≡ under p rs below key
unfolding under has_prefix
under_lem [] rs below [] = refl
under_lem [] rs below (y ∷ j) = ground arith
under_lem (x ∷ p) rs below [] = refl
under_lem (x ∷ p) rs below (y ∷ j) = ground (arith, under_lem p rs below j)

-- `new` has one revision more for `key`, and is `old` elsewhere; neither is asked for "".
abbrev pub OneMore : ℕ → Bytes → (Bytes → List ℕ) → (Bytes → List ℕ) → Type 0
OneMore r key old new =
    (b : ℕ) (j : Bytes)
    → new (b ∷ j) ≡ (if bytes_equal key (b ∷ j) then old (b ∷ j) ++ r ∷ [] else old (b ∷ j))

-- One revision more at the end of the edge.
pub under-end :
    (p : Bytes) (r : ℕ) (rs : List ℕ) (below : Bytes → List ℕ) (j : Bytes)
    → under p (rs ++ r ∷ []) below j
      ≡ (if bytes_equal p j then under p rs below j ++ r ∷ [] else under p rs below j)
unfolding under bytes_equal
under-end [] r rs below [] = refl
under-end [] r rs below (y ∷ j) = refl
under-end (x ∷ p) r rs below [] = refl
under-end (x ∷ p) r rs below (y ∷ j) = ground (arith, under-end p r rs below j)

-- One revision more below the edge.
pub under-below :
    (p : Bytes) (b : ℕ) (key : Bytes) (r : ℕ) (rs : List ℕ) (old new : Bytes → List ℕ) (j : Bytes)
    → OneMore r (b ∷ key) old new
    → under p rs new j
      ≡ (if bytes_equal (p ++ b ∷ key) j then under p rs old j ++ r ∷ [] else under p rs old j)
unfolding under bytes_equal
under-below [] b key r rs old new [] h = refl
under-below [] b key r rs old new (y ∷ j) h = h y j
under-below (x ∷ p) b key r rs old new [] h = refl
under-below (x ∷ p) b key r rs old new (y ∷ j) h =
    ground (arith, under-below p b key r rs old new j h)

-- An edge cut in two.
pub under-append :
    (p : Bytes) (b : ℕ) (q : Bytes) (rs : List ℕ) (below : Bytes → List ℕ) (j : Bytes)
    → under p [] (under (b ∷ q) rs below) j ≡ under (p ++ b ∷ q) rs below j
unfolding under
under-append [] b q rs below [] = refl
under-append [] b q rs below (y ∷ j) = refl
under-append (x ∷ p) b q rs below [] = refl
under-append (x ∷ p) b q rs below (y ∷ j) = ground (arith, under-append p b q rs below j)

pub take-append-drop : (n : ℕ) (p : Bytes) → take n p ++ drop n p ≡ p
take-append-drop zero p = refl
take-append-drop (suc n) [] = refl
take-append-drop (suc n) (x ∷ p) = ap (◌∷◌ x) (take-append-drop n p)

-- The common part of both strings is the same.
pub take-common :
    (p key : Bytes) → take (common_prefix_len p key) p ≡ take (common_prefix_len p key) key
unfolding common_prefix_len
take-common [] key = refl
take-common (x ∷ p) [] = refl
take-common (x ∷ p) (y ∷ key) = elim (Bool-cases (nat_beq x y)) [
  | inl e ↦
      let same : x ≡ y = ground arith in rw (e, common_prefix_len) (rw (same, take-common p key))
  | inr e ↦ rw (e, common_prefix_len)
]

pub common-le :
    (p key : Bytes) → (common_prefix_len p key ≤ length p) × (common_prefix_len p key ≤ length key)
unfolding common_prefix_len
common-le [] key = omega arith
common-le (x ∷ p) [] = omega arith
common-le (x ∷ p) (y ∷ key) = ground (arith, common-le p key)

pub length-drop : (n : ℕ) (p : Bytes) → n ≤ length p → length (drop n p) + n ≡ length p
length-drop zero p h = omega arith
length-drop (suc n) [] h = omega arith
length-drop (suc n) (x ∷ p) h = omega (arith, length-drop n p)

pub common_pos :
    (p key : Bytes)
    → 0 < length p
    → 0 < length key
    → first p ≡ first key
    → 0 < common_prefix_len p key
unfolding common_prefix_len
common_pos [] key hp hk e = absurd (omega arith)
common_pos (x ∷ p) [] hp hk e = absurd (omega arith)
common_pos (x ∷ p) (y ∷ key) hp hk e = ground arith

pub take-whole : (p : Bytes) → take (length p) p ≡ p
take-whole [] = refl
take-whole (x ∷ p) = ap (◌∷◌ x) (take-whole p)

pub under_self : (p : Bytes) (rs : List ℕ) (below : Bytes → List ℕ) → under p rs below p ≡ rs
unfolding under
under_self [] rs below = refl
under_self (x ∷ p) rs below = ground (arith, under_self p rs below)

pub under-through :
    (p : Bytes) (y : ℕ) (j : Bytes) (rs : List ℕ) (below : Bytes → List ℕ)
    → under p rs below (p ++ y ∷ j) ≡ below (y ∷ j)
unfolding under
under-through [] y j rs below = refl
under-through (x ∷ p) y j rs below = ground (arith, under-through p y j rs below)

pub under-short :
    (q : Bytes) (x : ℕ) (p : Bytes) (rs : List ℕ) (below : Bytes → List ℕ)
    → under (q ++ x ∷ p) rs below q ≡ []
unfolding under
under-short [] x p rs below = refl
under-short (y ∷ q) x p rs below = ground (arith, under-short q x p rs below)

pub first-append : (q p : Bytes) → 0 < length q → first (q ++ p) ≡ first q
first-append [] p h = absurd (omega arith)
first-append (x ∷ q) p h = refl

-- Only the rest of the key is asked for below an edge.
pub under-cong :
    (p : Bytes) (rs : List ℕ) (f g : Bytes → List ℕ) (j : Bytes)
    → ((y : ℕ) (k : Bytes) → f (y ∷ k) ≡ g (y ∷ k))
    → under p rs f j ≡ under p rs g j
unfolding under
under-cong [] rs f g [] h = refl
under-cong [] rs f g (y ∷ j) h = h y j
under-cong (x ∷ p) rs f g [] h = refl
under-cong (x ∷ p) rs f g (y ∷ j) h = ground (arith, under-cong p rs f g j h)

pub take_pos : (n : ℕ) (p : Bytes) → 0 < n → 0 < length p → 0 < length (take n p)
take_pos zero p h hp = absurd (omega arith)
take_pos (suc n) [] h hp = absurd (omega arith)
take_pos (suc n) (x ∷ p) h hp = omega arith
