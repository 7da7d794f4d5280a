-- ===== src/Lease.antt =====
-- pkg/lease/lease.go: the lease table, and what a log event does to it. A time is a number of
-- nanoseconds since year 1, the zero time of Go, and a TTL is the 64-bit pattern of its int64. The
-- encoding of a lease record (encoding/json) is a parameter, `decode_ttl`.
pub mod Key
pub mod Laws
pub mod Alike
use cloudetcd.Base.{
  ℕ, zero, suc, ◌+◌, ◌-◌, ◌*◌, ◌/◌, ◌%◌, ◌^◌, Bytes, Bool, true, false, not, ◌&&◌, List, [], ◌∷◌,
  ◌++◌, Option, none, some, nat_eq, nat_beq, bytes_equal, ltb, leb, drop, length, has_prefix,
  is_empty, lookup, insert, delete, if◌then◌else◌,
}
use cloudetcd.Event.{KeyValue, EventType, Event}
use cloudetcd.Outcome.{Error, Outcome, ok, err, fatal}
use cloudetcd.Request.{Compare, CompareTarget, CompareResult, TargetUnion, RequestOp, TxnRequest}
use cloudetcd.Storage.{internal_prefix}

pub record Lease : Type 0 where
  pub keys : List Bytes
  pub id : ℕ
  pub ttl : ℕ
  pub expiration : ℕ

pub record LeaseManager : Type 0 where
  pub leases : List (ℕ × Lease)
  pub expiring : List (ℕ × Bool)
  pub delete_queue : List Lease

unfoldable pub new_lease_manager : LeaseManager
new_lease_manager = record { leases = []; expiring = []; delete_queue = [] }

-- "\x00cloudetcd/lease/".
abbrev pub lease_key_prefix : Bytes
lease_key_prefix = internal_prefix ++ b'l' ∷ b'e' ∷ b'a' ∷ b's' ∷ b'e' ∷ b'/' ∷ []

-- A digit of `%x`.
unfoldable pub hex_digit : ℕ → ℕ
hex_digit d = if ltb d 10 then b'0' + d else b'a' + (d - 10)

-- `%016x` for 16 places.
unfoldable pub hex : ℕ → ℕ → Bytes
hex zero n = []
hex (suc places) n = hex places (n / 16) ++ hex_digit (n % 16) ∷ []

unfoldable pub lease_key : ℕ → Bytes
lease_key id = lease_key_prefix ++ hex 16 id

-- The value of a digit for strconv.ParseUint with base 16.
unfoldable pub digit_value : ℕ → Option ℕ
digit_value c =
    if leb b'0' c && leb c b'9'
    then some (c - b'0')
    else if leb b'a' c && leb c b'f'
    then some (c - b'a' + 10)
    else if leb b'A' c && leb c b'F'
    then some (c - b'A' + 10)
    else none

-- One round of ParseUint: none is an error, also for a number of more than 64 bits.
unfoldable pub parse_step : ℕ → ℕ → Option ℕ
parse_step acc c = elim (digit_value c) [
  | none ↦ none
  | some d ↦ if ltb (acc * 16 + d) (2 ^ 64) then some (acc * 16 + d) else none
]

unfoldable pub parse_digits : ℕ → Bytes → Option ℕ
parse_digits acc [] = some acc
parse_digits acc (c ∷ cs) = elim (parse_step acc c) [
  | none ↦ none
  | some acc' ↦ parse_digits acc' cs
]

-- ParseUint refuses an empty text.
unfoldable pub parse_uint : Bytes → Option ℕ
parse_uint [] = none
parse_uint (c ∷ cs) = parse_digits 0 (c ∷ cs)

unfoldable pub parse_lease_key : Bytes → Option ℕ
parse_lease_key key =
    if has_prefix key lease_key_prefix
    then parse_uint (drop (length lease_key_prefix) key)
    else none

unfoldable pub has_lease : LeaseManager → ℕ → Bool
has_lease m id = elim (lookup id m.leases) [ none ↦ false | some _ ↦ true ]

-- Takes a lease out of the table, and queues its keys for deletion if it has any.
unfoldable pub retire : ℕ → LeaseManager → LeaseManager
retire id m = elim (lookup id m.leases) [
  | none ↦ m
  | some lease ↦ record m {
    leases = delete id m.leases;
    expiring = delete id m.expiring;
    delete_queue = if is_empty lease.keys then m.delete_queue else m.delete_queue ++ lease ∷ [];
  }
]

-- `time.Now().Add(time.Duration(ttl) * time.Second)`: the product wraps to 64 bits, and is negative
-- from 2 ^ 63 on. A clock of after the year 293 is further from 0 than any Duration.
unfoldable pub expiry : ℕ → ℕ → ℕ
expiry now ttl =
    let duration = (ttl * 1000000000) % 2 ^ 64 in
    if ltb duration (2 ^ 63) then now + duration else now - (2 ^ 64 - duration)

-- The lease of a put record: the keys of the lease that is there, with the TTL anew.
unfoldable pub granted : ℕ → ℕ → ℕ → Option Lease → Lease
granted now id ttl none = record { keys = []; id = id; ttl = ttl; expiration = expiry now ttl }
granted now id ttl (some lease) = record lease { ttl = ttl; expiration = expiry now ttl }

-- onLeaseRecord.
unfoldable pub on_lease_record :
    (Bytes → Option ℕ) → ℕ → ℕ → Event → LeaseManager → Outcome LeaseManager
on_lease_record decode_ttl now id event m = elim event.kind [
  | EventType.put ↦ elim (decode_ttl event.kv.value) [
    | none ↦ ok m
    | some ttl ↦
        ok (record m { leases = insert id (granted now id ttl (lookup id m.leases)) m.leases })
  ]
  | EventType.delete ↦ ok (retire id m)
  | EventType.other _ ↦ fatal
]

-- `newLease.keys = append(newLease.keys, key)`, on a placeholder that expires at once if the lease
-- is not known.
unfoldable pub attach : ℕ → ℕ → Bytes → LeaseManager → LeaseManager
attach now id key m = elim (lookup id m.leases) [
  | none ↦ record m {
    leases = insert id (record { keys = key ∷ []; id = id; ttl = 0; expiration = now }) m.leases;
  }
  | some lease ↦ record m {
    leases = insert id (record lease { keys = lease.keys ++ key ∷ [] }) m.leases;
  }
]

-- The loop that takes the key out of the old lease's list, once.
unfoldable pub remove_key : Bytes → List Bytes → List Bytes
remove_key key [] = []
remove_key key (k ∷ keys) =
    let rest = k ∷ remove_key key keys in if bytes_equal k key then keys else rest

unfoldable pub detach : ℕ → Bytes → LeaseManager → LeaseManager
detach id key m = elim (lookup id m.leases) [
  | none ↦ m
  | some lease ↦
      let keys = remove_key key lease.keys in
      record m {
        leases =
            if is_empty keys
            then delete id m.leases
            else insert id (record lease { keys = keys }) m.leases;
      }
]

unfoldable pub prev_lease : Option KeyValue → ℕ
prev_lease none = 0
prev_lease (some kv) = kv.lease

-- The end of OnLogEvent, for an event of an ordinary key.
unfoldable pub on_key_event : ℕ → Event → LeaseManager → Outcome LeaseManager
on_key_event now event m =
    let new_id = event.kv.lease in
    let old_id = prev_lease event.prev_kv in
    let m₁ =
      if not (nat_beq new_id 0) && not (nat_beq new_id old_id)
      then attach now new_id event.kv.key m
      else m in
    let m₂ =
      if not (nat_beq new_id old_id) && not (nat_beq old_id 0)
      then detach old_id event.kv.key m₁
      else m₁ in
    if nat_beq new_id 0 && nat_beq old_id 0
    then ok m
    else elim event.kind [ EventType.other _ ↦ fatal | _ ↦ ok m₂ ]

-- OnLogEvent.
unfoldable pub on_log_event : (Bytes → Option ℕ) → ℕ → Event → LeaseManager → Outcome LeaseManager
on_log_event decode_ttl now event m = elim (parse_lease_key event.kv.key) [
  | some id ↦ on_lease_record decode_ttl now id event m
  | none ↦ on_key_event now event m
]

-- LeaseKeepAlive: the TTL, and the table with a new expiry.
unfoldable pub lease_keep_alive : ℕ → ℕ → LeaseManager → Outcome (ℕ × LeaseManager)
lease_keep_alive now id m =
    if nat_beq id 0 then err Error.lease_not_found else elim (lookup id m.leases) [
      | none ↦ err Error.lease_not_found
      | some lease ↦ ok (
        lease.ttl,
        record m {
          leases = insert id (record lease { expiration = expiry now lease.ttl }) m.leases;
        },
      )
    ]

-- The answer of LeaseTimeToLive: none for the TTL -1 of an unknown lease, else the whole seconds that
-- are left, 0 for an expired lease. time.Until stops at the largest Duration; the rounding of
-- Seconds to a float64 is left out.
unfoldable pub lease_time_to_live : ℕ → ℕ → LeaseManager → Option (ℕ × ℕ)
lease_time_to_live now id m = elim (lookup id m.leases) [
  | none ↦ none
  | some lease ↦
      let left = lease.expiration - now in
      let until = if ltb left (2 ^ 63) then left else 2 ^ 63 - 1 in
      some (until / 1000000000, lease.ttl)
]

-- The first half of checkExpiredOnce: marks the leases that have expired and lists them.
unfoldable pub is_expiring : LeaseManager → ℕ → Bool
is_expiring m id = elim (lookup id m.expiring) [ none ↦ false | some b ↦ b ]

unfoldable pub mark_expired : ℕ → List (ℕ × Lease) → LeaseManager → List ℕ × LeaseManager
mark_expired now [] m = ([], m)
mark_expired now ((id, lease) ∷ leases) m =
    let hit = ltb lease.expiration now && not (is_expiring m id) in
    let (ids, m') =
      mark_expired now leases
        (if hit then record m { expiring = insert id true m.expiring } else m) in
    (if hit then id ∷ ids else ids, m')

-- The transaction of deleteKeysForLease for one key.
unfoldable pub delete_key_txn : ℕ → Bytes → TxnRequest
delete_key_txn id key = record {
  compare =
      record {
        key = key;
        target = CompareTarget.lease_target;
        result = CompareResult.equal;
        target_union = TargetUnion.lease id;
      }
      ∷ [];
  success = RequestOp.request_delete_range (record { key = key; range_end = none }) ∷ [];
  failure = [];
}
