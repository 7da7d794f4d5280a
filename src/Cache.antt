-- ===== src/Cache.antt =====
-- pkg/persistence/recordcache/recordcache.go: a cache of records with a budget of bytes. The
-- linked list is a list, most recently used first, and the map from revisions to its elements is
-- the search of that list: `items` and `ll` always hold the same elements. `used` is kept apart,
-- as the code keeps it; a budget of 0 stands for every budget that is not positive.
pub mod Bounds
pub mod Reads
use cloudetcd.Base.{
  ℕ, zero, suc, ◌+◌, ◌-◌, Bool, true, false, ◌&&◌, List, [], ◌∷◌, ◌++◌, Option, none, some, length,
  ltb, nat_beq, if◌then◌else◌,
}
use cloudetcd.Event.{KeyValue, Event, LogRecord}

pub record Item : Type 0 where
  pub revision : ℕ
  pub log_record : LogRecord
  pub size : ℕ

pub record Cache : Type 0 where
  pub budget : ℕ
  pub used : ℕ
  pub ll : List Item

unfoldable pub new : ℕ → Cache
new budget_bytes = record { budget = budget_bytes; used = 0; ll = [] }

unfoldable pub kv_size : KeyValue → ℕ
kv_size kv = length kv.key + length kv.value

-- The loop of Size over the events.
unfoldable pub events_size : List Event → ℕ
unfolding kv_size
events_size [] = 0
events_size (e ∷ events) =
    160 + kv_size e.kv + elim e.prev_kv [ none ↦ 0 | some kv ↦ kv_size kv ] + events_size events

unfoldable pub record_size : LogRecord → ℕ
unfolding events_size
record_size r = 64 + events_size r.events

-- The element of a revision.
unfoldable pub element : ℕ → List Item → Option Item
element revision [] = none
element revision (it ∷ items) =
    if nat_beq it.revision revision then some it else element revision items

-- The list without the element of a revision.
unfoldable pub without : ℕ → List Item → List Item
without revision [] = []
without revision (it ∷ items) =
    let rest = it ∷ without revision items in if nat_beq it.revision revision then items else rest

unfoldable pub get : Cache → ℕ → Cache × Option LogRecord
get c revision = elim (element revision c.ll) [
  | none ↦ (c, none)
  | some it ↦ (record c { ll = it ∷ without revision c.ll }, some it.log_record)
]

unfoldable pub has : Cache → ℕ → Bool
has c revision = elim (element revision c.ll) [ none ↦ false | some _ ↦ true ]

unfoldable pub remove_element : Cache → Item → Cache
remove_element c it = record c { ll = without it.revision c.ll; used = c.used - it.size }

-- `ll.Back()`.
unfoldable pub back : List Item → Option Item
back [] = none
back (it ∷ []) = some it
back (it ∷ it' ∷ items) = back (it' ∷ items)

unfoldable pub evict_oldest : Cache → Cache
unfolding back remove_element
evict_oldest c = elim (back c.ll) [ none ↦ c | some it ↦ remove_element c it ]

-- The loop of Put that evicts; each round takes an element, so their number is fuel enough.
unfoldable pub evict_loop : ℕ → Cache → Cache
evict_loop zero c = c
evict_loop (suc f) c =
    let rest = evict_loop f (evict_oldest c) in
    if ltb 0 c.budget && ltb c.budget c.used && ltb 1 (length c.ll) then rest else c

-- What Put does before it evicts: the element at the front with the size, or nothing at all for a
-- record larger than the budget.
unfoldable pub store : Cache → ℕ → LogRecord → ℕ → Option Cache
store c revision log_record size = elim (element revision c.ll) [
  | some it ↦ some (record c {
    used = c.used + size - it.size;
    ll =
        record { revision = revision; log_record = log_record; size = size }
        ∷ without revision c.ll;
  })
  | none ↦
      if ltb 0 c.budget && ltb c.budget size
      then none
      else some (record c {
        used = c.used + size;
        ll = record { revision = revision; log_record = log_record; size = size } ∷ c.ll;
      })
]

unfoldable pub put : Cache → ℕ → LogRecord → Cache
put c revision log_record = elim (store c revision log_record (record_size log_record)) [
  | none ↦ c
  | some c' ↦ evict_loop (length c'.ll) c'
]

unfoldable pub remove : Cache → ℕ → Cache
remove c revision = elim (element revision c.ll) [ none ↦ c | some it ↦ remove_element c it ]
