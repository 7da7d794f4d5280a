-- ===== src/Lease/Laws.antt =====
-- What a log event does to the lease table of pkg/lease/lease.go.
use cloudetcd.Base.{
  ℕ, ◌+◌, ◌-◌, ◌*◌, ◌%◌, ◌^◌, ◌≡◌, ◌≢◌, refl, ◌∙◌, ◌⊎◌, false, not, ◌&&◌, ltb, Bool-cases, Bytes,
  List, [], ◌∷◌, ◌++◌, Option, none, some, arith, nat_eq, nat_beq, bytes_equal_refl, lookup, insert,
  lookup-insert, lookup-delete, if◌then◌else◌, inl, inr,
}
use cloudetcd.Event.{KeyValue, EventType, Event}
use cloudetcd.Outcome.{ok}
use cloudetcd.Lease.{
  Lease, LeaseManager, parse_lease_key, retire, granted, expiry, attach, on_lease_record, detach,
  remove_key, on_key_event, on_log_event, prev_lease,
}

pub lookup-retire :
    (id j : ℕ) (m : LeaseManager)
    → lookup j (retire id m).leases ≡ (if nat_beq id j then none else lookup j m.leases)
unfolding retire
lookup-retire id j m = by_lease (lookup id m.leases) refl
  where
    by_lease :
        (o : Option Lease)
        → lookup id m.leases ≡ o
        → lookup j (retire id m).leases ≡ (if nat_beq id j then none else lookup j m.leases)
    by_lease none e =
        rw (e, retire)
          (elim (Bool-cases (nat_beq id j)) [
            | inl same ↦ let eq : id ≡ j = ground arith in rw same (rw (← eq) e)
            | inr other ↦ rw other
          ])
    by_lease (some lease) e = rw (e, retire) (lookup-delete {V = Lease} id j m.leases)

abbrev keys_of : Option Lease → List Bytes
keys_of none = []
keys_of (some lease) = lease.keys

abbrev id_of : ℕ → Option Lease → ℕ
id_of id none = id
id_of id (some lease) = lease.id

granted_fields :
    (now id ttl : ℕ) (old : Option Lease)
    → granted now id ttl old
      ≡ record { keys = keys_of old; id = id_of id old; ttl = ttl; expiration = expiry now ttl }
unfolding granted
granted_fields now id ttl none = refl
granted_fields now id ttl (some lease) = refl

-- A put of a lease record makes the lease known, with the keys and the id that it had, or no keys
-- and the id of the record if it was unknown. Its TTL is that of the record, and it expires that
-- many seconds from now: `d` is the TTL in nanoseconds as the 64 bits of a Duration, which counts
-- back from 2 ^ 64 when it is negative. No other lease changes.
pub on_log_event-lease_put :
    (decode_ttl : Bytes → Option ℕ) (now id ttl d : ℕ) (event : Event) (m : LeaseManager) (j : ℕ)
    → parse_lease_key event.kv.key ≡ some id
    → event.kind ≡ EventType.put
    → decode_ttl event.kv.value ≡ some ttl
    → d ≡ (ttl * 1000000000) % 2 ^ 64
    → (m' : LeaseManager) × (on_log_event decode_ttl now event m ≡ ok m')
      × (lookup j m'.leases ≡ (
          if nat_beq id j
          then some (record {
            keys = keys_of (lookup id m.leases);
            id = id_of id (lookup id m.leases);
            ttl = ttl;
            expiration = if ltb d (2 ^ 63) then now + d else now - (2 ^ 64 - d);
          })
          else lookup j m.leases))
unfolding on_log_event on_lease_record expiry
on_log_event-lease_put decode_ttl now id ttl d event m j key put decoded duration = (
  record m { leases = insert id (granted now id ttl (lookup id m.leases)) m.leases },
  ground arith,
  lookup-insert {V = Lease} id j (granted now id ttl (lookup id m.leases)) m.leases
      ∙ rw (granted_fields now id ttl (lookup id m.leases), duration) refl,
)

-- A delete of a lease record makes the lease unknown and changes no other lease.
pub on_log_event-lease_delete :
    (decode_ttl : Bytes → Option ℕ) (now id : ℕ) (event : Event) (m : LeaseManager) (j : ℕ)
    → parse_lease_key event.kv.key ≡ some id
    → event.kind ≡ EventType.delete
    → (m' : LeaseManager) × (on_log_event decode_ttl now event m ≡ ok m')
      × (lookup j m'.leases ≡ (if nat_beq id j then none else lookup j m.leases))
unfolding on_log_event on_lease_record
on_log_event-lease_delete decode_ttl now id event m j key del =
    (retire id m, ground arith, lookup-retire id j m)

-- A lease that got a key; an unknown one is a placeholder that expires at once.
abbrev pub with_key : ℕ → ℕ → Bytes → Option Lease → Lease
with_key now id key none = record { keys = key ∷ []; id = id; ttl = 0; expiration = now }
with_key now id key (some lease) = record lease { keys = lease.keys ++ key ∷ [] }

pub lookup-attach :
    (now id j : ℕ) (key : Bytes) (m : LeaseManager)
    → lookup j (attach now id key m).leases ≡ (
        if nat_beq id j then some (with_key now id key (lookup id m.leases)) else lookup j m.leases)
unfolding attach
lookup-attach now id j key m = by_lease (lookup id m.leases) refl
  where
    by_lease :
        (o : Option Lease)
        → lookup id m.leases ≡ o
        → lookup j (attach now id key m).leases
          ≡ (if nat_beq id j then some (with_key now id key o) else lookup j m.leases)
    by_lease none e =
        rw (e, attach) (lookup-insert {V = Lease} id j (with_key now id key none) m.leases)
    by_lease (some lease) e =
        rw (e, attach) (lookup-insert {V = Lease} id j (with_key now id key (some lease)) m.leases)

lookup-detach :
    (id j : ℕ) (key : Bytes) (lease : Lease) (m : LeaseManager)
    → lookup id m.leases ≡ some lease
    → lease.keys ≡ key ∷ []
    → lookup j (detach id key m).leases ≡ (if nat_beq id j then none else lookup j m.leases)
unfolding detach remove_key
lookup-detach id j key lease m known only =
    rw (known, detach)
      (rw only (rw (bytes_equal_refl key) (lookup-delete {V = Lease} id j m.leases)))

-- An event of an ordinary key, a put or a delete, that takes the key from the lease that it had to
-- another one or to none, where it is the only key of the lease: the old lease itself is taken out
-- of the table, although no delete of its lease record was logged. The new lease, if there is one,
-- gets the key, and no other lease changes.
pub on_log_event-last_key :
    (decode_ttl : Bytes → Option ℕ) (now : ℕ) (event : Event) (prev : KeyValue) (lease : Lease)
    (m : LeaseManager) (j : ℕ)
    → parse_lease_key event.kv.key ≡ none
    → (event.kind ≡ EventType.put) ⊎ (event.kind ≡ EventType.delete)
    → event.prev_kv ≡ some prev
    → prev.lease ≢ 0
    → event.kv.lease ≢ prev.lease
    → lookup prev.lease m.leases ≡ some lease
    → lease.keys ≡ event.kv.key ∷ []
    → (m' : LeaseManager) × (on_log_event decode_ttl now event m ≡ ok m')
      × (lookup j m'.leases ≡ (
          if nat_beq prev.lease j
          then none
          else if not (nat_beq event.kv.lease 0) && nat_beq event.kv.lease j
          then some (with_key now event.kv.lease event.kv.key (lookup event.kv.lease m.leases))
          else lookup j m.leases))
unfolding on_log_event on_key_event prev_lease
on_log_event-last_key decode_ttl now event prev lease m j key kind before had differs known only =
    elim (Bool-cases (nat_beq event.kv.lease 0)) [
      | inl no_lease ↦ (
        detach prev.lease event.kv.key m,
        elim kind [ inl put ↦ ground arith | inr delete ↦ ground arith ],
        rw no_lease (lookup-detach prev.lease j event.kv.key lease m known only),
      )
      | inr has_lease ↦
          let m₁ = attach now event.kv.lease event.kv.key m in
          let other : nat_beq event.kv.lease prev.lease ≡ false = ground arith in
          let still : lookup prev.lease m₁.leases ≡ some lease =
            lookup-attach now event.kv.lease prev.lease event.kv.key m ∙ rw other known in
          (
            detach prev.lease event.kv.key m₁,
            elim kind [ inl put ↦ ground arith | inr delete ↦ ground arith ],
            rw has_lease (
                lookup-detach prev.lease j event.kv.key lease m₁ still only
                ∙ rw (lookup-attach now event.kv.lease j event.kv.key m) refl),
          )
    ]
