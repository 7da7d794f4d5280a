-- ===== src/Index/Branches.antt =====
-- The branches of addRevision of pkg/bptree/bptree.go at one entry.
use cloudetcd.Base.{
  ℕ, suc, ◌<◌, ◌≡◌, sym, ap, ◌∙◌, Bytes, Bool, true, false, List, [], ◌∷◌, ◌++◌, arith, length,
  take, drop, ltb, nat_beq, is_empty,
}
use cloudetcd.Index.{Node, end, entry, first, common_prefix_len, add_revision, lookup_node}
use cloudetcd.Index.Edge.{
  under, under-end, under-below, under-append, under_self, under-through, under-short, first-append,
  under-cong,
}
use cloudetcd.Index.Sorted.{IsSorted, lookup-single, Added, Added-same}

module _ (r b : ℕ) (key : Bytes) (lo : ℕ) (p : Bytes) (rs : List ℕ) (tb : Bool)
    (c rest : Node) where
  pub Added-end :
      (t : Bool)
      → p ≡ b ∷ key
      → IsSorted lo (entry p rs tb c rest)
      → Added r b key lo (entry p rs tb c rest) (entry p (rs ++ r ∷ []) t c rest, is_empty rs)
  Added-end t e s =
      Added-same r b key lo p p rs (rs ++ r ∷ []) tb t c c rest (is_empty rs) (ap first e)
        (ap first e) s.0 s (λ y j. rw (← e) (under-end p r rs (lookup_node c) (y ∷ j))) s.2
        (rw (← e) (rw (under_self p rs (lookup_node c))))

  pub Added-below :
      (x : ℕ) (q : Bytes) (result : Node × Bool)
      → p ++ x ∷ q ≡ b ∷ key
      → IsSorted lo (entry p rs tb c rest)
      → Added r x q 0 c result
      → Added r b key lo (entry p rs tb c rest) (entry p rs tb result.0 rest, result.1)
  Added-below x q result e s (more, sorted, is_new) =
      let head : first p ≡ b = sym (first-append p (x ∷ q) s.0) ∙ ap first e in
      Added-same r b key lo p p rs rs tb tb c result.0 rest result.1 head head s.0 s
        (λ y j.
          rw (← e) (under-below p x q r rs (lookup_node c) (lookup_node result.0) (y ∷ j) more))
        sorted (rw (← e) (rw (under-through p x q rs (lookup_node c), is_new)))

  pub Added-split :
      (t : Bool) (q : Bytes) (x : ℕ) (p₂ : Bytes)
      → q ++ x ∷ p₂ ≡ p
      → q ≡ b ∷ key
      → IsSorted lo (entry p rs tb c rest)
      → Added r b key lo
          (entry p rs tb c rest)
          (entry q (r ∷ []) t (entry (x ∷ p₂) rs tb c end) rest, true)
  Added-split t q x p₂ e eq s =
      let pos : 0 < length q = rw eq (omega arith) in
      let child = entry (x ∷ p₂) rs tb c end in
      let head : first p ≡ b = rw (← e) (first-append q (x ∷ p₂) pos ∙ ap first eq) in
      Added-same r b key lo p q rs (r ∷ []) tb t c child rest true head (ap first eq) pos s
        (λ y j. under-end q r [] (lookup_node child) (y ∷ j) ∙ rw (← eq) (rw (same y j)))
        (omega arith, omega arith, s.2, tt)
        (rw (← e, ← eq) (rw (under-short q x p₂ rs (lookup_node c))))
    where
      same :
          (y : ℕ) (j : Bytes)
          → under q [] (lookup_node (entry (x ∷ p₂) rs tb c end)) (y ∷ j)
            ≡ under p rs (lookup_node c) (y ∷ j)
      same y j =
          under-cong q [] _ _ (y ∷ j) (lookup-single x p₂ rs tb c)
          ∙ under-append q x p₂ rs (lookup_node c) (y ∷ j)
          ∙ ap (λ w. under w rs (lookup_node c) (y ∷ j)) e

  pub Added-beside :
      (q : Bytes) (x : ℕ) (p₂ : Bytes) (z : ℕ) (k₂ : Bytes) (result : Node × Bool)
      → 0 < length q
      → q ++ x ∷ p₂ ≡ p
      → q ++ z ∷ k₂ ≡ b ∷ key
      → IsSorted lo (entry p rs tb c rest)
      → Added r z k₂ 0 (entry (x ∷ p₂) rs tb c end) result
      → Added r b key lo (entry p rs tb c rest) (entry q [] false result.0 rest, result.1)
  Added-beside q x p₂ z k₂ result pos e ek s (more, sorted, is_new) =
      let child = entry (x ∷ p₂) rs tb c end in
      let head : first p ≡ b =
        rw (← e) (first-append q (x ∷ p₂) pos ∙ sym (first-append q (z ∷ k₂) pos) ∙ ap first ek) in
      let head' : first q ≡ b = sym (first-append q (z ∷ k₂) pos) ∙ ap first ek in
      Added-same r b key lo p q rs [] tb false c result.0 rest result.1 head head' pos s
        (λ y j.
          under-below q z k₂ r [] (lookup_node child) (lookup_node result.0) (y ∷ j) more
          ∙ rw (ek, same y j))
        sorted
        (is_new
          ∙ ap is_empty (sym (under-through q z k₂ [] (lookup_node child)) ∙ rw ek (same b key)))
    where
      same :
          (y : ℕ) (j : Bytes)
          → under q [] (lookup_node (entry (x ∷ p₂) rs tb c end)) (y ∷ j)
            ≡ under p rs (lookup_node c) (y ∷ j)
      same y j =
          under-cong q [] _ _ (y ∷ j) (lookup-single x p₂ rs tb c)
          ∙ under-append q x p₂ rs (lookup_node c) (y ∷ j)
          ∙ ap (λ w. under w rs (lookup_node c) (y ∷ j)) e

-- The branches of addRevision at an entry.
module _ (f : ℕ) (p : Bytes) (rs : List ℕ) (tb : Bool) (c rest : Node) (key : Bytes) (r : ℕ)
    (t : Bool) where
  abbrev branch : Node × Bool
  branch = add_revision (suc f) (entry p rs tb c rest) key r t

  pub add_beyond :
      ltb (first p) (first key) ≡ true
      → branch ≡ (
        entry p rs tb c (add_revision (suc f) rest key r t).0,
        (add_revision (suc f) rest key r t).1,
      )
  unfolding add_revision
  add_beyond e = rw (e, add_revision)

  pub add_before :
      ltb (first p) (first key) ≡ false
      → ltb (first key) (first p) ≡ true
      → branch ≡ (entry key (r ∷ []) t end (entry p rs tb c rest), true)
  unfolding add_revision
  add_before e e' = rw (e, add_revision) (rw e')

  module _ (e : ltb (first p) (first key) ≡ false) (e' : ltb (first key) (first p) ≡ false) where
    pub add_end :
        common_prefix_len p key ≡ length p
        → common_prefix_len p key ≡ length key
        → branch ≡ (entry p (rs ++ r ∷ []) t c rest, is_empty rs)
    unfolding add_revision
    add_end whole ends =
        let w : nat_beq (common_prefix_len p key) (length p) ≡ true = ground arith in
        let n : nat_beq (common_prefix_len p key) (length key) ≡ true = ground arith in
        rw (e, add_revision) (rw e' (rw w (rw n)))

    pub add_below :
        common_prefix_len p key ≡ length p
        → common_prefix_len p key < length key
        → branch ≡ (
          entry p rs tb (add_revision f c (drop (common_prefix_len p key) key) r t).0 rest,
          (add_revision f c (drop (common_prefix_len p key) key) r t).1,
        )
    unfolding add_revision
    add_below whole ends =
        let w : nat_beq (common_prefix_len p key) (length p) ≡ true = ground arith in
        let n : nat_beq (common_prefix_len p key) (length key) ≡ false = ground arith in
        rw (e, add_revision) (rw e' (rw w (rw n)))

    pub add_split :
        common_prefix_len p key < length p
        → common_prefix_len p key ≡ length key
        → branch ≡ (
          entry
              (take (common_prefix_len p key) p)
              (r ∷ [])
              t
              (entry (drop (common_prefix_len p key) p) rs tb c end)
              rest,
          true,
        )
    unfolding add_revision
    add_split whole ends =
        let w : nat_beq (common_prefix_len p key) (length p) ≡ false = ground arith in
        let n : nat_beq (common_prefix_len p key) (length key) ≡ true = ground arith in
        rw (e, add_revision) (rw e' (rw w (rw n)))

    pub add_beside :
        common_prefix_len p key < length p
        → common_prefix_len p key < length key
        → branch ≡ (
          entry
              (take (common_prefix_len p key) p)
              []
              false
              (add_revision f
                (entry (drop (common_prefix_len p key) p) rs tb c end)
                (drop (common_prefix_len p key) key)
                r
                t).0
              rest,
          (add_revision f
              (entry (drop (common_prefix_len p key) p) rs tb c end)
              (drop (common_prefix_len p key) key)
              r
              t).1,
        )
    unfolding add_revision
    add_beside whole ends =
        let w : nat_beq (common_prefix_len p key) (length p) ≡ false = ground arith in
        let n : nat_beq (common_prefix_len p key) (length key) ≡ false = ground arith in
        rw (e, add_revision) (rw e' (rw w (rw n)))
