-- ===== src/Index/Add.antt =====
-- addRevision of pkg/bptree/bptree.go against lookup: the tree is a map from keys to revisions.
use cloudetcd.Base.{
  ℕ, zero, suc, ◌+◌, ◌≤◌, ◌<◌, ◌≡◌, refl, sym, ap, ◌∙◌, Bytes, Bool, false, List, [], ◌∷◌, ◌++◌,
  arith, length, take, drop, ltb, Bool-cases, inl, inr,
}
use cloudetcd.Index.{Node, end, entry, first, common_prefix_len, add_revision}
use mathlib.Core.List.{append-nil}
use cloudetcd.Index.Edge.{
  take-append-drop, take-common, common-le, length-drop, common_pos, take_pos,
}
use cloudetcd.Index.Sorted.{IsSorted, Added, Added-leaf, Added-before, Added-beyond}
use cloudetcd.Index.Branches.{
  add_end, add_below, add_split, add_beside, Added-end, Added-below, Added-split, Added-beside,
  add_beyond, add_before,
}

module _ (f : ℕ) (p : Bytes) (rs : List ℕ) (tb : Bool) (c rest : Node) (lo b : ℕ) (key : Bytes)
    (r : ℕ) (t : Bool) where
  -- The call on a child, whose key is shorter.
  abbrev Below : Type 0
  Below =
      (n : Node) (x : ℕ) (q : Bytes)
      → IsSorted 0 n
      → length (x ∷ q) ≤ f
      → Added r x q 0 n (add_revision f n (x ∷ q) r t)

  Added-cut :
      (e : ltb (first p) b ≡ false) (e' : ltb b (first p) ≡ false) (below : Below)
      → IsSorted lo (entry p rs tb c rest)
      → length (b ∷ key) ≤ suc f
      → (rest_p rest_key : Bytes) → drop (common_prefix_len p (b ∷ key)) p ≡ rest_p
      → drop (common_prefix_len p (b ∷ key)) (b ∷ key) ≡ rest_key
      → Added r b key lo
          (entry p rs tb c rest)
          (add_revision (suc f) (entry p rs tb c rest) (b ∷ key) r t)
  Added-cut e e' below s room rest_p rest_key ep ek = by_rest rest_p rest_key ep ek
    where
      k : ℕ
      k = common_prefix_len p (b ∷ key)

      pos : 0 < k
      pos = common_pos p (b ∷ key) s.0 (omega arith) (ground arith)

      cut_p : take k p ++ drop k p ≡ p
      cut_p = take-append-drop k p

      cut_key : take k p ++ drop k (b ∷ key) ≡ b ∷ key
      cut_key = rw (take-common p (b ∷ key)) (take-append-drop k (b ∷ key))

      len_p : length (drop k p) + k ≡ length p
      len_p = length-drop k p (common-le p (b ∷ key)).0

      len_key : length (drop k (b ∷ key)) + k ≡ length (b ∷ key)
      len_key = length-drop k (b ∷ key) (common-le p (b ∷ key)).1

      whole : drop k p ≡ [] → take k p ≡ p
      whole e₁ = sym (append-nil _) ∙ (rw e₁ at cut_p)

      by_rest :
          (rest_p rest_key : Bytes)
          → drop k p ≡ rest_p
          → drop k (b ∷ key) ≡ rest_key
          → Added r b key lo
              (entry p rs tb c rest)
              (add_revision (suc f) (entry p rs tb c rest) (b ∷ key) r t)
      by_rest [] [] e₁ e₂ =
          let same : p ≡ b ∷ key = sym (whole e₁) ∙ sym (append-nil _) ∙ (rw e₂ at cut_key) in
          rw
            (add_end f p rs tb c rest (b ∷ key) r t e e' (omega (arith, ap length e₁, len_p))
              (omega (arith, ap length e₂, len_key)))
            (Added-end r b key lo p rs tb c rest t same s)
      by_rest [] (x ∷ q) e₁ e₂ =
          let joined : p ++ x ∷ q ≡ b ∷ key = rw (whole e₁, e₂) at cut_key in
          rw
            (add_below f p rs tb c rest (b ∷ key) r t e e' (omega (arith, ap length e₁, len_p))
              (omega (arith, ap length e₂, len_key)))
            (rw e₂ (
              Added-below r b key lo p rs tb c rest x q (add_revision f c (x ∷ q) r t) joined s
                (below c x q s.2 (omega (arith, ap length e₂, len_key, pos)))))
      by_rest (x ∷ p₂) [] e₁ e₂ =
          rw
            (add_split f p rs tb c rest (b ∷ key) r t e e' (omega (arith, ap length e₁, len_p))
              (omega (arith, ap length e₂, len_key)))
            (rw e₁ (
              Added-split r b key lo p rs tb c rest t (take k p) x p₂ (rw e₁ at cut_p)
                (sym (append-nil _) ∙ (rw e₂ at cut_key)) s))
      by_rest (x ∷ p₂) (z ∷ k₂) e₁ e₂ =
          rw
            (add_beside f p rs tb c rest (b ∷ key) r t e e' (omega (arith, ap length e₁, len_p))
              (omega (arith, ap length e₂, len_key)))
            (rw (e₁, e₂)
              (Added-beside r b key lo p rs tb c rest (take k p) x p₂ z k₂
                (add_revision f (entry (x ∷ p₂) rs tb c end) (z ∷ k₂) r t) (take_pos k p pos s.0)
                (rw e₁ at cut_p) (rw e₂ at cut_key) s
                (below (entry (x ∷ p₂) rs tb c end) z k₂ (omega arith, omega arith, s.2, tt)
                  (omega (arith, ap length e₂, len_key, pos)))))

-- addRevision with fuel for the length of the key: the new node looks up one revision more for the
-- key and the same for every other key, stays well-formed, and the flag says if the key is new.
pub add_revision-Added :
    (f : ℕ) (n : Node) (lo b : ℕ) (key : Bytes) (r : ℕ) (t : Bool)
    → IsSorted lo n
    → lo ≤ b
    → length (b ∷ key) ≤ f
    → Added r b key lo n (add_revision f n (b ∷ key) r t)
add_revision-Added zero n lo b key r t s h room = absurd (omega arith)
add_revision-Added (suc f) end lo b key r t s h room =
    unfold add_revision in Added-leaf r b key t lo h
add_revision-Added (suc f) (entry p rs tb c rest) lo b key r t s h room =
    elim (Bool-cases (ltb (first p) b)) [
      | inl beyond ↦ rw (add_beyond f p rs tb c rest (b ∷ key) r t beyond) (
          Added-beyond r b key lo p rs tb c rest (add_revision (suc f) rest (b ∷ key) r t)
            (ground arith) s
            (add_revision-Added (suc f) rest (suc (first p)) b key r t s.3 (ground arith) room))
      | inr not_beyond ↦ elim (Bool-cases (ltb b (first p))) [
        | inl before ↦
            rw (add_before f p rs tb c rest (b ∷ key) r t not_beyond before)
              (Added-before r b key t lo p rs tb c rest h (ground arith) s)
        | inr not_before ↦
            Added-cut f p rs tb c rest lo b key r t not_beyond not_before
              (λ n x q sorted fits. add_revision-Added f n 0 x q r t sorted (omega arith) fits) s
              room _ _ refl refl
      ]
    ]
