-- ===== src/Tests/Caches.antt =====
-- Runs of pkg/persistence/recordcache/recordcache.go at concrete records.
use cloudetcd.Base.{arith, ℕ, ◌≡◌, refl, ◌≢◌, true, [], none, inl, inr, nat_beq, if◌then◌else◌}
use cloudetcd.Event.{LogRecord}
use cloudetcd.Cache.{
  Cache, new, events_size, record_size, put, get, remove, has, element, without, store, evict_loop,
  evict_oldest, back, remove_element,
}
use cloudetcd.Cache.Bounds.{IsValid, put-IsValid}
use cloudetcd.Cache.Reads.{IsUsed, get-IsValid, remove-IsValid}

-- A record without events, of 64 bytes.
abbrev empty_record : LogRecord
empty_record = record { events = [] }

-- A cache with room for two such records.
abbrev small : Cache
small = new 150

small-IsValid : IsValid small
unfolding new
small-IsValid = record {
  counted = refl;
  sized = tt;
  distinct = tt;
  bounded = inr (inl (omega arith));
}

abbrev three : Cache
three = put (put (put small 1 empty_record) 2 empty_record) 3 empty_record

three-IsValid : IsValid three
three-IsValid = put-IsValid (put (put small 1 empty_record) 2 empty_record) 3 empty_record (
    put-IsValid (put small 1 empty_record) 2 empty_record
      (put-IsValid small 1 empty_record small-IsValid))

-- The third record takes the place of the first.
three_evicts : (three.used ≡ 128) × (has three 1 ≢ true) × (has three 3 ≡ true)
unfolding new put store record_size events_size element has evict_loop evict_oldest back
    remove_element without
three_evicts = (refl, ground arith, refl)

put-IsValid_example : IsValid (put three 4 empty_record)
put-IsValid_example = put-IsValid three 4 empty_record three-IsValid

get-IsValid_example :
    IsValid (get three 2).0
    × ((q : ℕ) → element q (get three 2).0.ll ≡ element q three.ll)
    × IsUsed three 2 (element 2 three.ll) (get three 2)
get-IsValid_example = get-IsValid three 2 three-IsValid

remove-IsValid_example :
    IsValid (remove three 2)
    × ((q : ℕ) → element q (remove three 2).ll ≡ (if nat_beq 2 q then none else element q three.ll))
remove-IsValid_example = remove-IsValid three 2 three-IsValid
