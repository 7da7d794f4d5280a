-- ===== src/Batch/Replies.antt =====
-- The channels of `prepare`, pkg/persistence/batch/batch.go: who is told what.
use cloudetcd.Base.{
  ℕ, suc, ◌+◌, ◌≡◌, refl, List, [], ◌∷◌, arith, In, inl, inr, Bool-cases, nat_beq, if◌then◌else◌,
}
use cloudetcd.Event.{KeyValue, EventType, Event}
use cloudetcd.Batch.{
  restamp, restamp_as, restamp_kv, PendingTxn, Committed, validate_txn, record_writes, stamp_txn,
  prepare_loop,
}
use cloudetcd.Batch.Loop.{prepare_loop_reject, prepare_loop_accept}

-- How often a channel stands in a list.
abbrev pub count : ℕ → List ℕ → ℕ
count a [] = 0
count a (x ∷ xs) = (if nat_beq a x then 1 else 0) + count a xs

abbrev pub chans : List PendingTxn → List ℕ
chans [] = []
chans (txn ∷ txns) = txn.result_chan ∷ chans txns

-- Each channel stands among the accepted and the rejected ones as often as among the pending.
pub prepare_loop-count :
    (last revision : ℕ) (c : Committed) (txns : List PendingTxn) (a : ℕ)
    → count a (prepare_loop last revision c txns).accepted
        + count a (prepare_loop last revision c txns).rejected
      ≡ count a (chans txns)
unfolding prepare_loop
prepare_loop-count last revision c [] a = omega arith
prepare_loop-count last revision c (txn ∷ txns) a =
    elim (Bool-cases (validate_txn txn.meta last c)) [
      | inr bad ↦
          rw (prepare_loop_reject last revision c txn txns bad)
            (omega (arith, prepare_loop-count last revision c txns a))
      | inl good ↦ rw (prepare_loop_accept last revision c txn txns good) (
          omega (
            arith,
            prepare_loop-count last (suc revision)
                (record_writes txn.meta.write_set (suc revision) c) txns a,
          ))
    ]

pub chans-transactions :
    (last revision : ℕ) (c : Committed) (txns : List PendingTxn)
    → chans (prepare_loop last revision c txns).transactions
      ≡ (prepare_loop last revision c txns).accepted
unfolding prepare_loop stamp_txn
chans-transactions last revision c [] = refl
chans-transactions last revision c (txn ∷ txns) = elim (Bool-cases (validate_txn txn.meta last c)) [
  | inr bad ↦
      rw (prepare_loop_reject last revision c txn txns bad)
        (chans-transactions last revision c txns)
  | inl good ↦ rw (prepare_loop_accept last revision c txn txns good) (
      rw (
        chans-transactions last (suc revision) (record_writes txn.meta.write_set (suc revision) c)
          txns))
]

-- The revisions of an event that is committed at a revision: those of a put whose key was created
-- by it are both the new one; a delete keeps the revision at which its key was created.
abbrev pub HasRevisions : EventType → ℕ → KeyValue → KeyValue → Type 0
HasRevisions EventType.put revision kv kv' =
    (kv'.mod_revision ≡ revision)
    × (kv'.create_revision
        ≡ (if nat_beq kv.create_revision kv.mod_revision then revision else kv.create_revision))
HasRevisions EventType.delete revision kv kv' =
    (kv'.mod_revision ≡ revision) × (kv'.create_revision ≡ kv.create_revision)
HasRevisions (EventType.other k) revision kv kv' =
    (kv'.mod_revision ≡ kv.mod_revision) × (kv'.create_revision ≡ kv.create_revision)

-- An event and what is committed for it: all but the revisions is the same.
pub record IsRestamped (revision : ℕ) (event event' : Event) : Type 0 where
  pub kind : event'.kind ≡ event.kind
  pub prev_kv : event'.prev_kv ≡ event.prev_kv
  pub key : event'.kv.key ≡ event.kv.key
  pub value : event'.kv.value ≡ event.kv.value
  pub version : event'.kv.version ≡ event.kv.version
  pub lease : event'.kv.lease ≡ event.kv.lease
  pub revisions : HasRevisions event.kind revision event.kv event'.kv

abbrev pub AreRestamped : ℕ → List Event → List Event → Type 0
AreRestamped revision [] [] = Unit
AreRestamped revision [] (event' ∷ events') = ⊥
AreRestamped revision (event ∷ events) [] = ⊥
AreRestamped revision (event ∷ events) (event' ∷ events') =
    IsRestamped revision event event' × AreRestamped revision events events'

restamp_as-IsRestamped :
    (revision : ℕ) (event : Event)
    → IsRestamped revision event (restamp_as event.kind event revision)
unfolding restamp_as restamp_kv
restamp_as-IsRestamped revision event = by_kind event.kind refl
  where
    by_kind :
        (kind : EventType)
        → event.kind ≡ kind
        → IsRestamped revision event (restamp_as event.kind event revision)
    by_kind EventType.put is =
        rw (is, restamp_as)
          (record {
            kind = refl;
            prev_kv = refl;
            key = refl;
            value = refl;
            version = refl;
            lease = refl;
            revisions = (refl, refl);
          })
    by_kind EventType.delete is =
        rw (is, restamp_as)
          (record {
            kind = refl;
            prev_kv = refl;
            key = refl;
            value = refl;
            version = refl;
            lease = refl;
            revisions = (refl, refl);
          })
    by_kind (EventType.other k) is =
        rw (is, restamp_as)
          (record {
            kind = refl;
            prev_kv = refl;
            key = refl;
            value = refl;
            version = refl;
            lease = refl;
            revisions = (refl, refl);
          })

restamp-AreRestamped :
    (revision : ℕ) (events : List Event) → AreRestamped revision events (restamp revision events)
unfolding restamp
restamp-AreRestamped revision [] = tt
restamp-AreRestamped revision (event ∷ events) =
    (restamp_as-IsRestamped revision event, restamp-AreRestamped revision events)

-- A committed transaction, and the pending one that it comes from.
pub record IsCommitted (revision : ℕ) (u t : PendingTxn) : Type 0 where
  pub meta : t.meta ≡ u.meta
  pub result_chan : t.result_chan ≡ u.result_chan
  pub events : AreRestamped revision u.log_record.events t.log_record.events

stamp_txn-IsCommitted :
    (revision : ℕ) (u : PendingTxn) → IsCommitted revision u (stamp_txn revision u)
unfolding stamp_txn
stamp_txn-IsCommitted revision u = record {
  meta = refl;
  result_chan = refl;
  events = restamp-AreRestamped revision u.log_record.events;
}

-- The transaction at place `i` is committed at revision `revision + i + 1`.
abbrev pub Stamped : ℕ → List PendingTxn → List PendingTxn → Type 0
Stamped revision txns [] = Unit
Stamped revision txns (t ∷ ts) =
    ((u : PendingTxn) × In u txns × IsCommitted (suc revision) u t) × Stamped (suc revision) txns ts

Stamped-weaken :
    (revision : ℕ) (txn : PendingTxn) (txns ts : List PendingTxn)
    → Stamped revision txns ts
    → Stamped revision (txn ∷ txns) ts
Stamped-weaken revision txn txns [] h = tt
Stamped-weaken revision txn txns (t ∷ ts) h =
    ((h.0.0, inr h.0.1, h.0.2), Stamped-weaken (suc revision) txn txns ts h.1)

-- Each committed transaction is one of the pending ones, with its sets, its channel and its events
-- in order. Its revision is the next one after that of the transaction before it, from the one
-- after the start. Its puts and deletes carry that revision as the one that modified the key; a put
-- that created its key carries it as the one that created it too, every other event keeps the one
-- that it had. Nothing else of an event changes.
pub prepare_loop-Stamped :
    (last revision : ℕ) (c : Committed) (txns : List PendingTxn)
    → Stamped revision txns (prepare_loop last revision c txns).transactions
unfolding prepare_loop
prepare_loop-Stamped last revision c [] = tt
prepare_loop-Stamped last revision c (txn ∷ txns) =
    elim (Bool-cases (validate_txn txn.meta last c)) [
      | inr bad ↦
          rw (prepare_loop_reject last revision c txn txns bad)
            (Stamped-weaken revision txn txns _ (prepare_loop-Stamped last revision c txns))
      | inl good ↦ rw (prepare_loop_accept last revision c txn txns good) (
        (txn, inl refl, stamp_txn-IsCommitted (suc revision) txn),
        Stamped-weaken (suc revision) txn txns _ (
            prepare_loop-Stamped last (suc revision)
              (record_writes txn.meta.write_set (suc revision) c) txns),
      )
    ]
