-- ===== src/Memory/Reflects.antt =====
-- applyUpTo of pkg/storage/memorystorage/memory.go: the index is the log, key by key.
use cloudetcd.Base.{
  ℕ, zero, suc, ◌+◌, ◌-◌, ◌≤◌, ◌≡◌, ◌≢◌, refl, ◌⊎◌, sym, ◌∙◌, Bytes, Bool, true, false, List, [],
  ◌∷◌, ◌++◌, Option, arith, leb, bytes_equal, if◌then◌else◌, Bool-cases, inl, inr,
}
use mathlib.Core.List.{append-nil, append_assoc}
use cloudetcd.Event.{EventType, Event, LogRecord}
use cloudetcd.Index.{add, revisions_of}
use cloudetcd.Index.Sorted.{IsSorted}
use cloudetcd.Index.Map.{revisions_of-add}
use cloudetcd.Lease.{on_log_event}
use cloudetcd.Outcome.{Outcome, ok, err, fatal, >>=-eq-ok}
use cloudetcd.Storage.{Fetch, found, missing, failed}
use cloudetcd.Memory.History.{written, events_at, history, added, history-add}
use cloudetcd.Memory.{
  MemoryStorage, apply_event, apply_events, apply_one, after_record, go_on, apply_loop, apply_up_to,
}

-- The index of `s'` is that of `s` with the revisions of the next records of the log behind those
-- that each key had.
pub record Extends (fetch : ℕ → Fetch) (s s' : MemoryStorage) : Type 0 where
  pub steps : ℕ
  pub applied : s'.applied ≡ s.applied + steps
  pub sorted : IsSorted 0 s'.revisions.root
  pub revisions :
      (key : Bytes)
      → revisions_of s'.revisions key
        ≡ revisions_of s.revisions key ++ added fetch key s.applied steps
  pub compacted : s'.compacted ≡ s.compacted

Extends-refl :
    (fetch : ℕ → Fetch) (s : MemoryStorage) → IsSorted 0 s.revisions.root → Extends fetch s s
unfolding added
Extends-refl fetch s h = record {
  steps = 0;
  applied = omega arith;
  sorted = h;
  revisions = λ key. sym (append-nil _);
  compacted = refl;
}

Extends-suc :
    (fetch : ℕ → Fetch) (s u s' : MemoryStorage)
    → u.applied ≡ suc s.applied
    → ((key : Bytes)
        → revisions_of u.revisions key
          ≡ revisions_of s.revisions key
            ++ written (suc s.applied) key (events_at (fetch (suc s.applied))))
    → u.compacted ≡ s.compacted
    → Extends fetch u s'
    → Extends fetch s s'
unfolding added
Extends-suc fetch s u s' applied index compacted h = record {
  steps = suc h.steps;
  applied = omega (arith, applied, h.applied);
  sorted = h.sorted;
  revisions = λ key.
      h.revisions key
      ∙ rw (index key, applied)
          (append_assoc (revisions_of s.revisions key)
            (written (suc s.applied) key (events_at (fetch (suc s.applied))))
            (added fetch key (suc s.applied) h.steps));
  compacted = h.compacted ∙ compacted;
}

-- The index holds for each key the revisions that the log has up to the applied one.
pub record Reflects (fetch : ℕ → Fetch) (s : MemoryStorage) : Type 0 where
  pub sorted : IsSorted 0 s.revisions.root
  pub revisions : (key : Bytes) → revisions_of s.revisions key ≡ history fetch key s.applied

module _ (decode_ttl : Bytes → Option ℕ) (now : ℕ) where
  -- What one event changes: the index gets its revision, the rest of the position stays.
  apply_event-index :
      (r : ℕ) (event : Event) (s s' : MemoryStorage)
      → apply_event decode_ttl now r event s ≡ ok s'
      → (tombstone : Bool) × (s'.revisions ≡ add s.revisions event.kv.key r tombstone)
        × (s'.applied ≡ s.applied)
        × (s'.compacted ≡ s.compacted)
  unfolding apply_event
  apply_event-index r event s s' e = by_kind event.kind refl
    where
      by_kind :
          (kind : EventType)
          → event.kind ≡ kind
          → (tombstone : Bool) × (s'.revisions ≡ add s.revisions event.kv.key r tombstone)
            × (s'.applied ≡ s.applied)
            × (s'.compacted ≡ s.compacted)
      by_kind EventType.put is =
          let (leases, _, e₁) =
            >>=-eq-ok (on_log_event decode_ttl now event s.lease_manager) _
              (rw (is, apply_event) at e) in
          (false, ground arith, ground arith, ground arith)
      by_kind EventType.delete is =
          let (leases, _, e₁) =
            >>=-eq-ok (on_log_event decode_ttl now event s.lease_manager) _
              (rw (is, apply_event) at e) in
          (true, ground arith, ground arith, ground arith)
      by_kind (EventType.other n) is = absurd (ground arith)

  apply_events-index :
      (r : ℕ) (events : List Event) (s s' : MemoryStorage)
      → apply_events decode_ttl now r events s ≡ ok s'
      → IsSorted 0 s.revisions.root
      → IsSorted 0 s'.revisions.root
        × (s'.applied ≡ s.applied)
        × (s'.compacted ≡ s.compacted)
        × ((key : Bytes)
            → revisions_of s'.revisions key ≡ revisions_of s.revisions key ++ written r key events)
  unfolding apply_events written
  apply_events-index r [] s s' e h =
      let same : s ≡ s' = ground arith in rw (← same) (h, refl, refl, λ key. sym (append-nil _))
  apply_events-index r (event ∷ events) s s' e h =
      let (u, e₁, e₂) = >>=-eq-ok (apply_event decode_ttl now r event s) _ e in
      let (tombstone, index, applied, compacted) = apply_event-index r event s u e₁ in
      let (more, sorted, _) = revisions_of-add s.revisions event.kv.key r tombstone h in
      let (sorted', applied', compacted', rest) =
        apply_events-index r events u s' e₂ (rw index sorted) in
      (
        sorted',
        applied' ∙ applied,
        compacted' ∙ compacted,
        λ key.
            rest key
            ∙ rw (index, more key)
                (elim (Bool-cases (bytes_equal event.kv.key key)) [
                  | inl same ↦
                      rw same (
                        append_assoc (revisions_of s.revisions key) (r ∷ []) (written r key events))
                  | inr other ↦ rw other
                ]),
      )

  -- A round that succeeds adds one record to the index, and a round that fails changes nothing.
  apply_one_cases :
      (fetch : ℕ → Fetch) (s : MemoryStorage)
      → ((s' : MemoryStorage) × (log_entry : LogRecord) × (apply_one decode_ttl now fetch s
            ≡ (record s' { applied = suc s.applied }, ok tt))
          × (fetch (suc s.applied) ≡ found log_entry)
          × (apply_events decode_ttl now (suc s.applied) log_entry.events s ≡ ok s'))
        ⊎ (((apply_one decode_ttl now fetch s).0 ≡ s)
            × ((apply_one decode_ttl now fetch s).1 ≢ ok tt))
  unfolding apply_one
  apply_one_cases fetch s = by_fetch (fetch (suc s.applied)) refl
    where
      r : ℕ
      r = suc s.applied

      Result : Type 0
      Result =
          ((s' : MemoryStorage) × (log_entry : LogRecord) × (apply_one decode_ttl now fetch s
              ≡ (record s' { applied = suc s.applied }, ok tt))
            × (fetch (suc s.applied) ≡ found log_entry)
            × (apply_events decode_ttl now (suc s.applied) log_entry.events s ≡ ok s'))
          ⊎ (((apply_one decode_ttl now fetch s).0 ≡ s)
              × ((apply_one decode_ttl now fetch s).1 ≢ ok tt))

      by_outcome :
          (log_entry : LogRecord) (o : Outcome MemoryStorage)
          → fetch r ≡ found log_entry
          → apply_events decode_ttl now r log_entry.events s ≡ o
          → Result
      by_outcome log_entry (ok s') is e =
          inl (s', log_entry, rw (is, apply_one) (rw (e, after_record) refl), is, e)
      by_outcome log_entry (err x) is e =
          inr (rw (is, apply_one) (rw (e, after_record) (refl, λ p. absurd (ground arith))))
      by_outcome log_entry fatal is e =
          inr (rw (is, apply_one) (rw (e, after_record) (refl, λ p. absurd (ground arith))))

      by_fetch : (f : Fetch) → fetch r ≡ f → Result
      by_fetch (found log_entry) is =
          by_outcome log_entry (apply_events decode_ttl now r log_entry.events s) is refl
      by_fetch missing is = inr (rw (is, apply_one) (refl, λ p. absurd (ground arith)))
      by_fetch failed is = inr (rw (is, apply_one) (refl, λ p. absurd (ground arith)))

  apply_loop_stops :
      (n : ℕ) (fetch : ℕ → Fetch) (s : MemoryStorage)
      → (apply_one decode_ttl now fetch s).0 ≡ s
      → (apply_one decode_ttl now fetch s).1 ≢ ok tt
      → ((apply_loop decode_ttl now (suc n) fetch s).0 ≡ s)
        × ((apply_loop decode_ttl now (suc n) fetch s).1 ≢ ok tt)
  unfolding apply_loop
  apply_loop_stops n fetch s same stopped =
      by_step (apply_one decode_ttl now fetch s).0 (apply_one decode_ttl now fetch s).1 same stopped
    where
      by_step :
          (u : MemoryStorage) (o : Outcome (Unit {0}))
          → u ≡ s
          → o ≢ ok tt
          → ((go_on (apply_loop decode_ttl now n fetch) (u, o)).0 ≡ s)
            × ((go_on (apply_loop decode_ttl now n fetch) (u, o)).1 ≢ ok tt)
      by_step u (ok tt) same stopped = absurd (stopped refl)
      by_step u (err e) same stopped = (same, λ p. absurd (ground arith))
      by_step u fatal same stopped = (same, λ p. absurd (ground arith))

  apply_loop-Extends :
      (n : ℕ) (fetch : ℕ → Fetch) (s : MemoryStorage)
      → IsSorted 0 s.revisions.root
      → Extends fetch s (apply_loop decode_ttl now n fetch s).0
  unfolding apply_loop
  apply_loop-Extends zero fetch s h = Extends-refl fetch s h
  apply_loop-Extends (suc n) fetch s h = elim (apply_one_cases fetch s) [
    | inr (same, stopped) ↦ rw (apply_loop_stops n fetch s same stopped).0 (Extends-refl fetch s h)
    | inl (s', log_entry, one, is, e) ↦
        let (sorted, applied, compacted, index) =
          apply_events-index (suc s.applied) log_entry.events s s' e h in
        rw (one, apply_loop)
          (Extends-suc fetch s (record s' { applied = suc s.applied }) _ refl (rw is index)
            compacted (apply_loop-Extends n fetch (record s' { applied = suc s.applied }) sorted))
  ]

  apply_events-applied :
      (r : ℕ) (events : List Event) (s s' : MemoryStorage)
      → apply_events decode_ttl now r events s ≡ ok s'
      → s'.applied ≡ s.applied
  unfolding apply_events
  apply_events-applied r [] s s' e = let same : s ≡ s' = ground arith in rw (← same) refl
  apply_events-applied r (event ∷ events) s s' e =
      let (u, e₁, e₂) = >>=-eq-ok (apply_event decode_ttl now r event s) _ e in
      let (tombstone, index, applied, compacted) = apply_event-index r event s u e₁ in
      apply_events-applied r events u s' e₂ ∙ applied

  apply_loop-applied :
      (n : ℕ) (fetch : ℕ → Fetch) (s : MemoryStorage)
      → (apply_loop decode_ttl now n fetch s).1 ≡ ok tt
      → (apply_loop decode_ttl now n fetch s).0.applied ≡ s.applied + n
  unfolding apply_loop
  apply_loop-applied zero fetch s e = omega arith
  apply_loop-applied (suc n) fetch s e = elim (apply_one_cases fetch s) [
    | inr (same, stopped) ↦ absurd ((apply_loop_stops n fetch s same stopped).1 e)
    | inl (s', log_entry, one, is, done) ↦
        rw (one, apply_loop)
          (apply_loop-applied n fetch (record s' { applied = suc s.applied }) (rw one at e)
            ∙ omega arith)
  ]

  -- applyUpTo puts behind the revisions that the index has for a key those of the next records of
  -- the log, one for each event of the key, up to the applied revision that it leaves, also when
  -- it returns an error half way, and also in an index that was compacted. The children of the
  -- index's nodes must be sorted. The compacted revision stays. If it returns no error, the applied
  -- revision is at least the one asked for.
  pub apply_up_to-Extends :
      (fetch : ℕ → Fetch) (rev : ℕ) (s : MemoryStorage)
      → IsSorted 0 s.revisions.root
      → Extends fetch s (apply_up_to decode_ttl now fetch rev s).0
        × (((apply_up_to decode_ttl now fetch rev s).1 ≢ ok tt)
            ⊎ (rev ≤ (apply_up_to decode_ttl now fetch rev s).0.applied))
  unfolding apply_up_to
  apply_up_to-Extends fetch rev s h = elim (Bool-cases (leb rev s.applied)) [
    | inl there ↦ rw (there, apply_up_to) (Extends-refl fetch s h, inr (ground arith))
    | inr behind ↦
        rw (behind, apply_up_to)
          (
            apply_loop-Extends (rev - s.applied) fetch s h,
            reached (apply_loop decode_ttl now (rev - s.applied) fetch s).1 refl,
          )
  ]
    where
      reached :
          (o : Outcome (Unit {0}))
          → (apply_loop decode_ttl now (rev - s.applied) fetch s).1 ≡ o
          → ((apply_loop decode_ttl now (rev - s.applied) fetch s).1 ≢ ok tt)
            ⊎ (rev ≤ (apply_loop decode_ttl now (rev - s.applied) fetch s).0.applied)
      reached (ok tt) e = inr (omega (arith, apply_loop-applied (rev - s.applied) fetch s e))
      reached (err x) e = inl (λ p. absurd (ground arith))
      reached fatal e = inl (λ p. absurd (ground arith))

  pub apply_up_to-Reflects :
      (fetch : ℕ → Fetch) (rev : ℕ) (s : MemoryStorage)
      → Reflects fetch s
      → Reflects fetch (apply_up_to decode_ttl now fetch rev s).0
        × ((apply_up_to decode_ttl now fetch rev s).0.compacted ≡ s.compacted)
  apply_up_to-Reflects fetch rev s h =
      let (more, _) = apply_up_to-Extends fetch rev s h.sorted in
      (
        record {
          sorted = more.sorted;
          revisions = λ key.
              more.revisions key
              ∙ rw (h.revisions key, more.applied) (history-add fetch key s.applied more.steps);
        },
        more.compacted,
      )

  -- If applyUpTo returns no error, the applied revision is the one asked for, or the one that it
  -- was if that was higher.
  pub apply_up_to-applied :
      (fetch : ℕ → Fetch) (rev : ℕ) (s : MemoryStorage)
      → (apply_up_to decode_ttl now fetch rev s).1 ≡ ok tt
      → (apply_up_to decode_ttl now fetch rev s).0.applied
        ≡ (if leb rev s.applied then s.applied else rev)
  unfolding apply_up_to
  apply_up_to-applied fetch rev s e = elim (Bool-cases (leb rev s.applied)) [
    | inl there ↦ rw (there, apply_up_to) refl
    | inr behind ↦
        rw (behind, apply_up_to)
          (apply_loop-applied (rev - s.applied) fetch s (rw behind at e) ∙ ground arith)
  ]
