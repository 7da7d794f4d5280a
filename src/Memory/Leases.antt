-- ===== src/Memory/Leases.antt =====
-- The operations of pkg/lease/lease.go that go through the storage: grants, revokes, expiry and the
-- deletion of the keys of a lease. The lease table is the one that the storage holds. json.Marshal of
-- a lease record is the parameter `encode_ttl`; a TTL is the 64-bit pattern of its int64.
use cloudetcd.Base.{
  ℕ, Bytes, Bool, true, false, not, ◌||◌, List, [], ◌∷◌, ◌++◌, Option, none, some, nat_eq, nat_beq,
  delete, if◌then◌else◌,
}
use cloudetcd.Lease.{
  Lease, LeaseManager, lease_key, has_lease, retire, mark_expired, delete_key_txn,
}
use cloudetcd.Memory.{Log}
use cloudetcd.Memory.Commit.{World, txn}
use cloudetcd.Memory.Commit
use cloudetcd.Outcome.{Error, Outcome, ok, err, fatal}
use cloudetcd.Request.{TxnResponse, PutResponse, DeleteRangeResponse}

-- queue.Push, and queue.Pop: none for an empty queue.
unfoldable pub push : Lease → List Lease → List Lease
push lease queue = queue ++ lease ∷ []

unfoldable pub pop : List Lease → Option (Lease × List Lease)
pop [] = none
pop (lease ∷ queue) = some (lease, queue)

-- ListLeases.
unfoldable pub list_leases : List (ℕ × Lease) → List ℕ
list_leases [] = []
list_leases ((id, lease) ∷ leases) = lease.id ∷ list_leases leases

module _ {L : Type 0} (encode_ttl : ℕ → Option Bytes) (decode_ttl : Bytes → Option ℕ) (now : ℕ)
    (log : Log L) where
  -- The lease table of the storage, changed under its lock.
  abbrev pub with_leases : World L → (LeaseManager → LeaseManager) → World L
  with_leases w change = record w {
    storage = record w.storage { lease_manager = change w.storage.lease_manager };
  }

  abbrev pub delete_record : World L → ℕ → World L × Outcome DeleteRangeResponse
  delete_record w id =
      Commit.delete decode_ttl now log w (record { key = lease_key id; range_end = none })

  revoked : World L × Outcome DeleteRangeResponse → World L × Outcome (Unit {0})
  revoked (w, ok _) = (w, ok tt)
  revoked (w, err e) = (w, err e)
  revoked (w, fatal) = (w, fatal)

  unfoldable pub lease_revoke : World L → ℕ → World L × Outcome (Unit {0})
  unfolding revoked
  lease_revoke w id =
      if nat_beq id 0 || not (has_lease w.storage.lease_manager id)
      then (w, err Error.lease_not_found)
      else revoked (delete_record w id)

  -- The answer of LeaseGrant: the id and the TTL.
  record_granted : ℕ → ℕ → World L × Outcome PutResponse → World L × Outcome (ℕ × ℕ)
  record_granted id ttl (w, ok _) = (w, ok (id, ttl))
  record_granted id ttl (w, err e) = (w, err e)
  record_granted id ttl (w, fatal) = (w, fatal)

  put_record : World L → ℕ → ℕ → World L × Outcome (ℕ × ℕ)
  unfolding record_granted
  put_record w id ttl = elim (encode_ttl ttl) [
    | none ↦ (w, err Error.bad_record)
    | some value ↦ record_granted id ttl (
        Commit.put decode_ttl now log w
          (record { key = lease_key id; value = value; lease = 0; prev_kv = false }))
  ]

  -- LeaseGrant, at a time in nanoseconds, which is the id where the request has none.
  unfoldable pub lease_grant : World L → ℕ → ℕ → ℕ → World L × Outcome (ℕ × ℕ)
  unfolding put_record
  lease_grant w unix_nano id ttl =
      if nat_beq id 0
      then put_record w unix_nano ttl
      else if has_lease w.storage.lease_manager id
      then (w, err Error.lease_exists)
      else put_record w id ttl

  -- The end of an expiry: it is tried again after an error, and a lease without a record retires here.
  expiry_recorded : ℕ → World L × Outcome DeleteRangeResponse → World L × Outcome (Unit {0})
  expiry_recorded id (w, fatal) = (w, fatal)
  expiry_recorded id (w, err e) =
      (with_leases w (λ m. record m { expiring = delete id m.expiring }), ok tt)
  expiry_recorded id (w, ok resp) =
      (if nat_beq resp.deleted 0 then with_leases w (retire id) else w, ok tt)

  -- The loop of checkExpiredOnce over the leases that expired.
  unfoldable pub expire_all : List ℕ → World L → World L × Outcome (Unit {0})
  unfolding expiry_recorded
  expire_all [] w = (w, ok tt)
  expire_all (id ∷ ids) w =
      let (w', expired) = expiry_recorded id (delete_record w id) in
      elim expired [ ok _ ↦ expire_all ids w' | err e ↦ (w', err e) | fatal ↦ (w', fatal) ]

  unfoldable pub check_expired_once : World L → World L × Outcome (Unit {0})
  check_expired_once w =
      let (ids, m) = mark_expired now w.storage.lease_manager.leases w.storage.lease_manager in
      expire_all ids (with_leases w (λ _. m))

  -- Whether an error is added to those of deleteKeysForLease.
  key_deleted : World L × Outcome TxnResponse → World L × Outcome Bool
  key_deleted (w, ok resp) = (w, ok true)
  key_deleted (w, err e) = (w, ok false)
  key_deleted (w, fatal) = (w, fatal)

  -- The loop of deleteKeysForLease; false stands for the joined errors.
  unfoldable pub delete_keys : ℕ → List Bytes → Bool → World L → World L × Outcome Bool
  unfolding key_deleted
  delete_keys id [] good w = (w, ok good)
  delete_keys id (key ∷ keys) good w =
      let (w', deleted) = key_deleted (txn decode_ttl now log w (delete_key_txn id key)) in
      elim deleted [
        | ok fine ↦ delete_keys id keys (if fine then good else false) w'
        | err e ↦ (w', err e)
        | fatal ↦ (w', fatal)
      ]

  queue_again : Lease → World L × Outcome Bool → World L × Outcome (Unit {0})
  queue_again lease (w, ok true) = (w, ok tt)
  queue_again lease (w, ok false) =
      (with_leases w (λ m. record m { delete_queue = push lease m.delete_queue }), ok tt)
  queue_again lease (w, err e) = (w, err e)
  queue_again lease (w, fatal) = (w, fatal)

  -- A round of processDeletionQueue: a lease with errors goes to the end of the queue again.
  unfoldable pub process_deletion : World L → World L × Outcome (Unit {0})
  unfolding queue_again
  process_deletion w = elim (pop w.storage.lease_manager.delete_queue) [
    | none ↦ (w, ok tt)
    | some (lease, queue) ↦ queue_again lease (
        delete_keys lease.id lease.keys true
          (with_leases w (λ m. record m { delete_queue = queue })))
  ]
