-- ===== src/FileLog/Walk.antt =====
-- How Compact of pkg/persistence/filesystemlog/filesystem_log.go groups the files that it rewrites.
use cloudetcd.Base.{
  ℕ, ◌+◌, ◌≤◌, ◌<◌, ◌≡◌, refl, ap, ◌∙◌, false, ◌&&◌, List, [], ◌∷◌, ◌++◌, arith, ltb, ◌⊎◌, inl, inr,
  Bool-cases, All,
}
use mathlib.Core.List.{append_assoc}
use cloudetcd.Outcome.{Outcome, ok, err, fatal}
use cloudetcd.FileLog.{LogFile}
use cloudetcd.FileLog.Compact.{Measured, stays, flush, walk, ◌&>◌}

abbrev pub files_of : List Measured → List LogFile
files_of [] = []
files_of (m ∷ ms) = m.f ∷ files_of ms

abbrev pub live_sum : List Measured → ℕ
live_sum [] = 0
live_sum (m ∷ ms) = m.live_bytes + live_sum ms

abbrev pub dead_sum : List Measured → ℕ
dead_sum [] = 0
dead_sum (m ∷ ms) = m.dead + dead_sum ms

abbrev pub joined : List (List Measured) → List Measured
joined [] = []
joined (g ∷ groups) = g ++ joined groups

files_of-append :
    (g : List Measured) (m : Measured) → files_of (g ++ m ∷ []) ≡ files_of g ++ m.f ∷ []
files_of-append [] m = refl
files_of-append (x ∷ g) m = ap (◌∷◌ x.f) (files_of-append g m)

live_sum-append :
    (g : List Measured) (m : Measured) → live_sum (g ++ m ∷ []) ≡ live_sum g + m.live_bytes
live_sum-append [] m = omega arith
live_sum-append (x ∷ g) m = omega (arith, live_sum-append g m)

dead_sum-append : (g : List Measured) (m : Measured) → dead_sum (g ++ m ∷ []) ≡ dead_sum g + m.dead
dead_sum-append [] m = omega arith
dead_sum-append (x ∷ g) m = omega (arith, dead_sum-append g m)

&>-ok : {S : Type 0} (r : S × Outcome (Unit {0})) → r ≡ (r &> λ s. (s, ok tt))
&>-ok (s, ok tt) = refl
&>-ok (s, err e) = refl
&>-ok (s, fatal) = refl

-- A group has a file, and its live bytes fit, or the files before its last one have no live bytes.
abbrev pub IsGroup : ℕ → List Measured → Type 0
IsGroup rotate_bytes g =
    (init : List Measured) × (m : Measured) × (g ≡ init ++ m ∷ [])
    × ((live_sum init ≡ 0) ⊎ (live_sum g ≤ rotate_bytes))

module _ {S : Type 0} (rotate_bytes : ℕ) (compact : List LogFile → S → S × Outcome (Unit {0})) where
  -- flush for one group behind the other, up to the first error.
  abbrev pub flush_all : List (List Measured) → S → S × Outcome (Unit {0})
  flush_all [] s = (s, ok tt)
  flush_all (g ∷ groups) s =
      flush rotate_bytes compact (files_of g) (dead_sum g) s &> λ s'. flush_all groups s'

  walk-from :
      (files g : List Measured)
      → ((g ≡ []) ⊎ IsGroup rotate_bytes g)
      → (groups : List (List Measured)) × (joined groups ≡ g ++ files)
        × All (IsGroup rotate_bytes) groups
        × ((s : S)
            → walk rotate_bytes compact files (files_of g) (live_sum g) (dead_sum g) s
              ≡ flush_all groups s)
  unfolding walk
  walk-from [] g (inl nothing) =
      ([], rw nothing refl, tt, λ s. rw nothing (unfold flush stays in refl))
  walk-from [] g (inr is) =
      (g ∷ [], refl, (is, tt), λ s. &>-ok (flush rotate_bytes compact (files_of g) (dead_sum g) s))
  walk-from (m ∷ files) g known =
      elim (Bool-cases (ltb 0 (live_sum g) && ltb rotate_bytes (live_sum g + m.live_bytes))) [
        | inl full ↦
            let (groups, is, all, same) = walk-from files (m ∷ []) (inr ([], m, refl, inl refl)) in
            let one : live_sum (m ∷ []) ≡ m.live_bytes = omega arith in
            let one_dead : dead_sum (m ∷ []) ≡ m.dead = omega arith in
            let next : (s' : S)
                → walk rotate_bytes compact files (m.f ∷ []) m.live_bytes m.dead s'
                  ≡ flush_all groups s' =
              λ s'. rw (one, one_dead) at (same s') in
            (
              g ∷ groups,
              ap (◌++◌ g) is,
              (group g known (ground (arith, full)), all),
              λ s.
                  rw (full, walk)
                    (ap
                      (λ (k : S → S × Outcome (Unit {0})).
                        flush rotate_bytes compact (files_of g) (dead_sum g) s &> k)
                      (λ i s'. next s' i)),
            )
        | inr fits ↦
            let (groups, is, all, same) =
              walk-from files (g ++ m ∷ []) (inr (g, m, refl, bound g m fits)) in
            (
              groups,
              is ∙ append_assoc g (m ∷ []) files,
              all,
              λ s.
                  rw (fits, walk)
                    (rw (files_of-append g m, live_sum-append g m, dead_sum-append g m) at
                      (same s)),
            )
      ]
    where
      group :
          (g : List Measured)
          → ((g ≡ []) ⊎ IsGroup rotate_bytes g)
          → 0 < live_sum g
          → IsGroup rotate_bytes g
      group g (inl nothing) pos = absurd (omega (arith, pos, ap live_sum nothing))
      group g (inr is) pos = is

      bound :
          (g : List Measured) (m : Measured)
          → (ltb 0 (live_sum g) && ltb rotate_bytes (live_sum g + m.live_bytes)) ≡ false
          → (live_sum g ≡ 0) ⊎ (live_sum (g ++ m ∷ []) ≤ rotate_bytes)
      bound g m fits = ground (arith, fits, live_sum-append g m)

  -- Compact walks the measured files as one partition of them into groups, in order, whatever the state
  -- of the log is: it flushes each group, with the sum of its dead records, one behind
  -- the other up to the first error. Every group has a file, and its live bytes fit in RotateBytes
  -- unless the files before its last one have no live bytes at all.
  pub walk-groups :
      (files : List Measured)
      → (groups : List (List Measured)) × (joined groups ≡ files)
        × All (IsGroup rotate_bytes) groups
        × ((s : S) → walk rotate_bytes compact files [] 0 0 s ≡ flush_all groups s)
  walk-groups files = walk-from files [] (inl refl)
