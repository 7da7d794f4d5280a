-- ===== src/Lease/Alike.antt =====
-- OnLogEvent of pkg/lease/lease.go at two times: the lease tables differ in their expirations only.
use cloudetcd.Base.{
  ℕ, ◌≡◌, refl, ap, Bool, true, false, not, ◌&&◌, Bytes, List, [], ◌∷◌, ◌++◌, Option, none, some,
  arith, nat_eq, nat_beq, is_empty, lookup, insert, lookup-insert, lookup-delete, if◌then◌else◌,
  inl, inr, Bool-cases,
}
use cloudetcd.Event.{EventType, Event}
use cloudetcd.Outcome.{Outcome, ok}
use cloudetcd.Lease.{
  Lease, LeaseManager, parse_lease_key, retire, granted, on_lease_record, attach, detach,
  remove_key, on_key_event, on_log_event, prev_lease,
}
use cloudetcd.Lease.Laws.{with_key, lookup-retire, lookup-attach}

-- The same lease, but for the time at which it expires.
abbrev pub Alike : Option Lease → Option Lease → Type 0
Alike none none = Unit
Alike none (some b) = ⊥
Alike (some a) none = ⊥
Alike (some a) (some b) = (a.keys ≡ b.keys) × (a.id ≡ b.id) × (a.ttl ≡ b.ttl)

-- Tables with the same leases.
pub record HaveSame (m n : LeaseManager) : Type 0 where
  pub same : (j : ℕ) → Alike (lookup j m.leases) (lookup j n.leases)

pub Alike-refl : (o : Option Lease) → Alike o o
Alike-refl none = tt
Alike-refl (some a) = (refl, refl, refl)

Alike-if :
    (b : Bool) (x y x' y' : Option Lease)
    → Alike x y
    → Alike x' y'
    → Alike (if b then x else x') (if b then y else y')
Alike-if true x y x' y' h h' = h
Alike-if false x y x' y' h h' = h'

Alike-granted :
    (now now' id ttl : ℕ) (x y : Option Lease)
    → Alike x y
    → Alike (some (granted now id ttl x)) (some (granted now' id ttl y))
unfolding granted
Alike-granted now now' id ttl none none h = (refl, refl, refl)
Alike-granted now now' id ttl none (some b) h = absurd h
Alike-granted now now' id ttl (some a) none h = absurd h
Alike-granted now now' id ttl (some a) (some b) h = (h.0, h.1, refl)

Alike-with_key :
    (now now' id : ℕ) (key : Bytes) (x y : Option Lease)
    → Alike x y
    → Alike (some (with_key now id key x)) (some (with_key now' id key y))
Alike-with_key now now' id key none none h = (refl, refl, refl)
Alike-with_key now now' id key none (some b) h = absurd h
Alike-with_key now now' id key (some a) none h = absurd h
Alike-with_key now now' id key (some a) (some b) h = (ap (λ ks. ks ++ key ∷ []) h.0, h.1, h.2)

-- What is left of a lease that loses a key.
without_key : Bytes → Option Lease → Option Lease
without_key key none = none
without_key key (some lease) =
    if is_empty (remove_key key lease.keys)
    then none
    else some (record lease { keys = remove_key key lease.keys })

Alike-without_key :
    (key : Bytes) (x y : Option Lease) → Alike x y → Alike (without_key key x) (without_key key y)
unfolding without_key
Alike-without_key key none none h = tt
Alike-without_key key none (some b) h = absurd h
Alike-without_key key (some a) none h = absurd h
Alike-without_key key (some a) (some b) h =
    let left : remove_key key a.keys ≡ remove_key key b.keys = ap (remove_key key) h.0 in
    by_keys (remove_key key a.keys) (remove_key key b.keys) left
  where
    by_keys :
        (ks ls : List Bytes)
        → ks ≡ ls
        → Alike
            (if is_empty ks then none else some (record a { keys = ks }))
            (if is_empty ls then none else some (record b { keys = ls }))
    by_keys ks ls e = rw e (
        Alike-if (is_empty ls) none none (some (record a { keys = ls }))
          (some (record b { keys = ls })) tt (refl, h.1, h.2))

lookup-detach :
    (id j : ℕ) (key : Bytes) (m : LeaseManager)
    → lookup j (detach id key m).leases
      ≡ (if nat_beq id j then without_key key (lookup id m.leases) else lookup j m.leases)
unfolding detach without_key
lookup-detach id j key m = by_lease (lookup id m.leases) refl
  where
    by_lease :
        (o : Option Lease)
        → lookup id m.leases ≡ o
        → lookup j (detach id key m).leases
          ≡ (if nat_beq id j then without_key key o else lookup j m.leases)
    by_lease none e =
        rw (e, detach)
          (elim (Bool-cases (nat_beq id j)) [
            | inl same ↦ let eq : id ≡ j = ground arith in rw same (rw (← eq) e)
            | inr other ↦ rw other
          ])
    by_lease (some lease) e = elim (Bool-cases (is_empty (remove_key key lease.keys))) [
      | inl empty ↦ rw (e, detach) (rw empty (lookup-delete {V = Lease} id j m.leases))
      | inr more ↦
          rw (e, detach)
            (rw more (
              lookup-insert {V = Lease} id j (record lease { keys = remove_key key lease.keys })
                m.leases))
    ]

module _ (decode_ttl : Bytes → Option ℕ) (now now' : ℕ) where
  retire-HaveSame :
      (id : ℕ) (m n : LeaseManager) → HaveSame m n → HaveSame (retire id m) (retire id n)
  retire-HaveSame id m n h = record {
    same = λ j.
        rw (lookup-retire id j m, lookup-retire id j n)
          (Alike-if (nat_beq id j) none none (lookup j m.leases) (lookup j n.leases) tt (h.same j));
  }

  attach-HaveSame :
      (b : Bool) (id : ℕ) (key : Bytes) (m n : LeaseManager)
      → HaveSame m n
      → HaveSame (if b then attach now id key m else m) (if b then attach now' id key n else n)
  attach-HaveSame false id key m n h = h
  attach-HaveSame true id key m n h = record {
    same = λ j.
        rw (lookup-attach now id j key m, lookup-attach now' id j key n)
          (Alike-if (nat_beq id j) (some (with_key now id key (lookup id m.leases)))
            (some (with_key now' id key (lookup id n.leases))) (lookup j m.leases)
            (lookup j n.leases)
            (Alike-with_key now now' id key (lookup id m.leases) (lookup id n.leases) (h.same id))
            (h.same j));
  }

  detach-HaveSame :
      (b : Bool) (id : ℕ) (key : Bytes) (m n : LeaseManager)
      → HaveSame m n
      → HaveSame (if b then detach id key m else m) (if b then detach id key n else n)
  detach-HaveSame false id key m n h = h
  detach-HaveSame true id key m n h = record {
    same = λ j.
        rw (lookup-detach id j key m, lookup-detach id j key n)
          (Alike-if (nat_beq id j) (without_key key (lookup id m.leases))
            (without_key key (lookup id n.leases)) (lookup j m.leases) (lookup j n.leases)
            (Alike-without_key key (lookup id m.leases) (lookup id n.leases) (h.same id))
            (h.same j));
  }

  grant-HaveSame :
      (id ttl : ℕ) (m n : LeaseManager)
      → HaveSame m n
      → HaveSame
          (record m { leases = insert id (granted now id ttl (lookup id m.leases)) m.leases })
          (record n { leases = insert id (granted now' id ttl (lookup id n.leases)) n.leases })
  grant-HaveSame id ttl m n h = record {
    same = λ j.
        rw
          (
            lookup-insert {V = Lease} id j (granted now id ttl (lookup id m.leases)) m.leases,
            lookup-insert {V = Lease} id j (granted now' id ttl (lookup id n.leases)) n.leases,
          )
          (Alike-if (nat_beq id j) (some (granted now id ttl (lookup id m.leases)))
            (some (granted now' id ttl (lookup id n.leases))) (lookup j m.leases)
            (lookup j n.leases)
            (Alike-granted now now' id ttl (lookup id m.leases) (lookup id n.leases) (h.same id))
            (h.same j));
  }

  -- What an event of a lease record or of an ordinary key leaves at another time.
  Follows : (ℕ → LeaseManager → Outcome LeaseManager) → LeaseManager → LeaseManager → Type 0
  Follows op n m' = (n' : LeaseManager) × (op now' n ≡ ok n') × HaveSame m' n'

  on_lease_record-HaveSame :
      (id : ℕ) (event : Event) (m n m' : LeaseManager)
      → HaveSame m n
      → on_lease_record decode_ttl now id event m ≡ ok m'
      → Follows (λ at. on_lease_record decode_ttl at id event) n m'
  unfolding on_lease_record Follows
  on_lease_record-HaveSame id event m n m' h e = by_kind event.kind refl
    where
      by_ttl :
          (o : Option ℕ)
          → decode_ttl event.kv.value ≡ o
          → event.kind ≡ EventType.put
          → Follows (λ at. on_lease_record decode_ttl at id event) n m'
      by_ttl none bad is = let same : m ≡ m' = ground arith in (n, ground arith, rw same at h)
      by_ttl (some ttl) decoded is =
          let same : record m {
            leases = insert id (granted now id ttl (lookup id m.leases)) m.leases;
          }
              ≡ m' =
            ground arith in
          (
            record n { leases = insert id (granted now' id ttl (lookup id n.leases)) n.leases },
            ground arith,
            rw same at (grant-HaveSame id ttl m n h),
          )

      by_kind :
          (kind : EventType)
          → event.kind ≡ kind
          → Follows (λ at. on_lease_record decode_ttl at id event) n m'
      by_kind EventType.put is = by_ttl (decode_ttl event.kv.value) refl is
      by_kind EventType.delete is =
          let same : retire id m ≡ m' = ground arith in
          (retire id n, ground arith, rw same at (retire-HaveSame id m n h))
      by_kind (EventType.other k) is = absurd (ground arith)

  on_key_event-HaveSame :
      (event : Event) (m n m' : LeaseManager)
      → HaveSame m n
      → on_key_event now event m ≡ ok m'
      → Follows (λ at. on_key_event at event) n m'
  unfolding on_key_event Follows
  on_key_event-HaveSame event m n m' h e = elim (Bool-cases (nat_beq new 0 && nat_beq old 0)) [
    | inl neither ↦ let same : m ≡ m' = ground arith in (n, ground arith, rw same at h)
    | inr some_lease ↦ by_kind event.kind refl some_lease
  ]
    where
      new : ℕ
      new = event.kv.lease

      old : ℕ
      old = prev_lease event.prev_kv

      left : ℕ → LeaseManager → LeaseManager
      left at l =
          let l₁ =
            if not (nat_beq new 0) && not (nat_beq new old)
            then attach at new event.kv.key l
            else l in
          if not (nat_beq new old) && not (nat_beq old 0) then detach old event.kv.key l₁ else l₁

      moved : HaveSame (left now m) (left now' n)
      moved =
          detach-HaveSame (not (nat_beq new old) && not (nat_beq old 0)) old event.kv.key _ _
            (attach-HaveSame (not (nat_beq new 0) && not (nat_beq new old)) new event.kv.key m n h)

      by_kind :
          (kind : EventType)
          → event.kind ≡ kind
          → (nat_beq new 0 && nat_beq old 0) ≡ false
          → Follows (λ at. on_key_event at event) n m'
      by_kind EventType.put is some_lease =
          let same : left now m ≡ m' = ground arith in
          (left now' n, rw (some_lease, is) refl, rw same at moved)
      by_kind EventType.delete is some_lease =
          let same : left now m ≡ m' = ground arith in
          (left now' n, rw (some_lease, is) refl, rw same at moved)
      by_kind (EventType.other k) is some_lease = absurd (ground arith)

  -- OnLogEvent at another time, on a table with the same leases, has the same outcome and leaves a
  -- table with the same leases.
  pub on_log_event-HaveSame :
      (event : Event) (m n m' : LeaseManager)
      → HaveSame m n
      → on_log_event decode_ttl now event m ≡ ok m'
      → (n' : LeaseManager) × (on_log_event decode_ttl now' event n ≡ ok n') × HaveSame m' n'
  unfolding on_log_event Follows
  on_log_event-HaveSame event m n m' h e = by_key (parse_lease_key event.kv.key) refl
    where
      by_key :
          (o : Option ℕ)
          → parse_lease_key event.kv.key ≡ o
          → (n' : LeaseManager) × (on_log_event decode_ttl now' event n ≡ ok n') × HaveSame m' n'
      by_key (some id) is =
          rw (is, on_log_event)
            (on_lease_record-HaveSame id event m n m' h (rw (is, on_log_event) at e))
      by_key none is =
          rw (is, on_log_event) (on_key_event-HaveSame event m n m' h (rw (is, on_log_event) at e))
