-- ===== src/Tests/Indexes.antt =====
-- Runs of pkg/bptree/bptree.go at concrete keys.
use cloudetcd.Base.{
  ◌≡◌, refl, Bytes, true, false, [], ◌∷◌, ◌++◌, none, some, ◌+◌, ◌&&◌, leb, is_empty, bytes_equal,
  if◌then◌else◌, arith,
}
use cloudetcd.Index.{
  Node, end, entry, Index, empty_index, add, add_revision, revisions_of, get_latest, newest,
  compact, compact_node, common_prefix_len,
}
use cloudetcd.Index.Sorted.{IsSorted}
use cloudetcd.Index.Map.{revisions_of-add, get_latest-add}
use cloudetcd.Index.Trim.{
  deleted_in, get_latest-compact, key_count, revision_count, compact_node-counts,
}

-- "ab"
abbrev key_ab : Bytes
key_ab = 97 ∷ 98 ∷ []

-- "ac"
abbrev key_ac : Bytes
key_ac = 97 ∷ 99 ∷ []

-- Two keys with a common prefix: "ab" put at 2 and deleted at 4, "ac" put at 3.
abbrev shared_root : Node
shared_root =
    entry (97 ∷ []) [] false
      (entry (98 ∷ []) (2 ∷ 4 ∷ []) true end (entry (99 ∷ []) (3 ∷ []) false end end)) end

abbrev shared : Index
shared = record { keys = 2; empty_revisions = []; empty_tombstone = false; root = shared_root }

shared_built : add (add (add empty_index key_ab 2 false) key_ac 3 false) key_ab 4 true ≡ shared
unfolding add add_revision empty_index common_prefix_len
shared_built = refl

shared_root-IsSorted : IsSorted 0 shared_root
shared_root-IsSorted = ground arith

-- "a" splits nothing: it stands on the shared prefix, and counts as a key.
revisions_of-add_example :
    ((j : Bytes)
      → revisions_of (add shared (97 ∷ []) 5 false) j ≡ (
          if bytes_equal (97 ∷ []) j
          then revisions_of shared j ++ 5 ∷ []
          else revisions_of shared j))
    × IsSorted 0 (add shared (97 ∷ []) 5 false).root
    × ((add shared (97 ∷ []) 5 false).keys
        ≡ (if is_empty (revisions_of shared (97 ∷ [])) then shared.keys + 1 else shared.keys))
revisions_of-add_example = revisions_of-add shared (97 ∷ []) 5 false shared_root-IsSorted

get_latest-add_example : get_latest (add shared key_ac 5 false) key_ac 4 ≡ (
    if bytes_equal key_ac key_ac
    then (if leb 5 4 then some 5 else get_latest shared key_ac 4)
    else get_latest shared key_ac 4)
get_latest-add_example = get_latest-add shared key_ac 5 false key_ac 4 shared_root-IsSorted

get_latest-compact_example : get_latest (compact shared 4).0 key_ab 6 ≡ (
    if deleted_in shared key_ab && leb (newest (revisions_of shared key_ab)) 4
    then none
    else get_latest shared key_ab 6)
get_latest-compact_example = get_latest-compact shared 4 key_ab 6 (omega arith)

compact_node-counts_example :
    (key_count (compact_node 4 shared_root).0 + (compact_node 4 shared_root).1
      ≡ key_count shared_root)
    × (revision_count (compact_node 4 shared_root).0 + (compact_node 4 shared_root).2
        ≡ revision_count shared_root)
compact_node-counts_example = compact_node-counts 4 shared_root
