-- ===== src/Tests/Leases.antt =====
-- Runs of pkg/lease/lease.go at concrete leases.
use cloudetcd.Base.{
  arith, nat_eq, ℕ, ◌≡◌, refl, Bytes, [], ◌∷◌, Option, none, some, nat_beq, if◌then◌else◌, lookup,
  has_prefix, ltb, ◌+◌, ◌-◌, ◌^◌, inl,
}
use cloudetcd.Event.{KeyValue, EventType, Event}
use cloudetcd.Outcome.{ok}
use cloudetcd.Lease.{Lease, LeaseManager, lease_key, parse_lease_key, on_log_event}
use cloudetcd.Lease.Key.{parse_lease_key-lease_key}
use cloudetcd.Lease.Laws.{on_log_event-lease_put, on_log_event-lease_delete, on_log_event-last_key}

-- A lease record holds its TTL in one byte.
abbrev first_byte : Bytes → Option ℕ
first_byte [] = none
first_byte (b ∷ value) = some b

abbrev lease_event : EventType → Event
lease_event kind = record {
  kind = kind;
  kv = record {
    key = lease_key 255;
    value = 60 ∷ [];
    create_revision = 2;
    mod_revision = 2;
    version = 1;
    lease = 0;
  };
  prev_kv = none;
}

abbrev old_lease : Lease
old_lease = record { keys = (97 ∷ []) ∷ []; id = 255; ttl = 10; expiration = 20 }

abbrev one_lease : LeaseManager
one_lease = record { leases = (255, old_lease) ∷ []; expiring = []; delete_queue = [] }

parse_lease_key-lease_key_example : parse_lease_key (lease_key 255) ≡ some 255
parse_lease_key-lease_key_example = parse_lease_key-lease_key 255 (omega arith)

-- The lease is granted again at 100 seconds: it keeps its key, and runs for 60 seconds.
on_log_event-lease_put_example :
    (m' : LeaseManager) × (on_log_event first_byte 100000000000
        (lease_event EventType.put)
        one_lease
      ≡ ok m')
    × (lookup 255 m'.leases ≡ (
        if nat_beq 255 255
        then some (record {
          keys = (97 ∷ []) ∷ [];
          id = 255;
          ttl = 60;
          expiration =
              if ltb 60000000000 (2 ^ 63)
              then 100000000000 + 60000000000
              else 100000000000 - (2 ^ 64 - 60000000000);
        })
        else lookup 255 one_lease.leases))
unfolding lookup
on_log_event-lease_put_example =
    on_log_event-lease_put first_byte 100000000000 255 60 60000000000 (lease_event EventType.put)
      one_lease 255 (parse_lease_key-lease_key 255 (omega arith)) refl refl refl

on_log_event-lease_delete_example :
    (m' : LeaseManager) × (on_log_event first_byte 100 (lease_event EventType.delete) one_lease
      ≡ ok m')
    × (lookup 255 m'.leases ≡ (if nat_beq 255 255 then none else lookup 255 one_lease.leases))
on_log_event-lease_delete_example =
    on_log_event-lease_delete first_byte 100 255 (lease_event EventType.delete) one_lease 255
      (parse_lease_key-lease_key 255 (omega arith)) refl

-- The key "a" with the lease 255, put again without a lease.
abbrev held : KeyValue
held = record {
  key = 97 ∷ [];
  value = [];
  create_revision = 2;
  mod_revision = 2;
  version = 1;
  lease = 255;
}

abbrev released : Event
released = record {
  kind = EventType.put;
  kv = record held { mod_revision = 3; version = 2; lease = 0 };
  prev_kv = some held;
}

on_log_event-last_key_example :
    (m' : LeaseManager) × (on_log_event first_byte 15 released one_lease ≡ ok m')
    × (lookup 255 m'.leases ≡ none)
unfolding parse_lease_key has_prefix lookup
on_log_event-last_key_example =
    on_log_event-last_key first_byte 15 released held old_lease one_lease 255 refl (inl refl) refl
      (omega arith) (omega arith) refl refl
