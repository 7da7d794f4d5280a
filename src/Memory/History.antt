-- ===== src/Memory/History.antt =====
-- The revisions that the records of the log have for a key, as applyUpTo of
-- pkg/storage/memorystorage/memory.go gives them to the index.
use cloudetcd.Base.{
  ℕ, zero, suc, ◌+◌, ◌≡◌, ap, sym, ◌∙◌, Bytes, List, [], ◌∷◌, ◌++◌, arith, bytes_equal,
  if◌then◌else◌,
}
use mathlib.Core.List.{append-nil, append_assoc}
use cloudetcd.Event.{Event}
use cloudetcd.Storage.{Fetch, found, missing, failed}

-- One revision for each event of the key in a record.
unfoldable pub written : ℕ → Bytes → List Event → List ℕ
written r key [] = []
written r key (event ∷ events) =
    (if bytes_equal event.kv.key key then r ∷ [] else []) ++ written r key events

abbrev pub events_at : Fetch → List Event
events_at (found log_entry) = log_entry.events
events_at missing = []
events_at failed = []

-- The revisions of the key in the records 1 to n of the log.
unfoldable pub history : (ℕ → Fetch) → Bytes → ℕ → List ℕ
history fetch key zero = []
history fetch key (suc n) = history fetch key n ++ written (suc n) key (events_at (fetch (suc n)))

-- The revisions of the key in the `n` records of the log after the record `r`.
unfoldable pub added : (ℕ → Fetch) → Bytes → ℕ → ℕ → List ℕ
added fetch key r zero = []
added fetch key r (suc n) =
    written (suc r) key (events_at (fetch (suc r))) ++ added fetch key (suc r) n

pub history-add :
    (fetch : ℕ → Fetch) (key : Bytes) (r n : ℕ)
    → history fetch key r ++ added fetch key r n ≡ history fetch key (r + n)
unfolding history added
history-add fetch key r zero =
    append-nil _ ∙ ap (history fetch key) {x = r} {y = r + zero} (omega arith)
history-add fetch key r (suc n) =
    sym (
      append_assoc (history fetch key r) (written (suc r) key (events_at (fetch (suc r))))
        (added fetch key (suc r) n))
    ∙ history-add fetch key (suc r) n
    ∙ ap (history fetch key) {x = suc r + n} {y = r + suc n} (omega arith)
