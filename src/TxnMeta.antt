-- ===== src/TxnMeta.antt =====
-- pkg/persistence/txn_meta.go: the read and write sets of a transaction. Go's maps are association
-- lists with one entry for each key; a loop over a map goes through its entries.
use cloudetcd.Base.{ℕ, Bytes, Bool, true, false, List, [], none, some, lookup, insert, bytes_eq}

pub record TxnMeta : Type 0 where
  pub snapshot_revision : ℕ
  pub read_set : List (Bytes × ℕ)
  pub write_set : List (Bytes × Bool)
  pub has_range_read : Bool

unfoldable pub new_txn_meta : ℕ → TxnMeta
new_txn_meta snapshot = record {
  snapshot_revision = snapshot;
  read_set = [];
  write_set = [];
  has_range_read = false;
}

unfoldable pub add_read : TxnMeta → Bytes → ℕ → TxnMeta
add_read t key mod_revision = record t { read_set = insert key mod_revision t.read_set }

unfoldable pub add_write : TxnMeta → Bytes → TxnMeta
add_write t key = record t { write_set = insert key true t.write_set }

unfoldable pub add_list : TxnMeta → TxnMeta
add_list t = record t { has_range_read = true }

-- `t.WriteSet[key]`, false where the key is missing.
unfoldable pub writes : TxnMeta → Bytes → Bool
writes t key = elim (lookup key t.write_set) [ none ↦ false | some b ↦ b ]
