-- ===== src/Retention/Purge.antt =====
-- purgeQueue, purgeKeyIdx and checkDisk of internal/core/retention/retention.go.
use sq.Common.{
  ℕ, zero, suc, ◌+◌, ◌-◌, Bool, true, false, not, List, [], ◌∷◌, Option, none, some, ltb, leb, ◌==◌,
  if◌then◌else◌,
}
use sq.Message.{Message}
use sq.Deliver.Table.{Table}
use sq.Deliver.State.{Commit, rejected, unsynced, committed}
use sq.Store.Keys.{key_idx_topic_prefix, parse_key_idx_key, prefix_upper_bound}
use sq.Store.Order.{in_range}
use sq.Txn.Records.{Records, delete}

abbrev pub max_purge_per_queue : ℕ
max_purge_per_queue = 10000

-- DeleteRange from offset 0 up to a boundary.
unfoldable pub delete_below : ℕ → Table (List ℕ) → Table (List ℕ)
delete_below boundary [] = []
delete_below boundary ((o, raw) ∷ t) =
    let rest = delete_below boundary t in if ltb o boundary then rest else (o, raw) ∷ rest

-- What purgeQueue returns: how many messages it removed, whether the node leads the queue, and
-- whether there was an error; with the messages that are left.
pub record Purged : Type 0 where
  pub msgs : Table (List ℕ)
  pub found : ℕ
  pub led : Bool
  pub failed : Bool

unfoldable pub commit_range : Commit → ℕ → ℕ → Table (List ℕ) → Purged
commit_range rejected boundary found t = record { msgs = t; found = 0; led = true; failed = true }
commit_range unsynced boundary found t = record {
  msgs = delete_below boundary t;
  found = 0;
  led = true;
  failed = true;
}
commit_range committed boundary found t = record {
  msgs = delete_below boundary t;
  found = found;
  led = true;
  failed = false;
}

module _ (decode : List ℕ → Option Message) (cutoff : ℕ) where
  -- The scan from the head of the queue, with the boundary and the count so far; `none` is a message
  -- that cannot be decoded.
  unfoldable pub expired_run : ℕ → Table (List ℕ) → ℕ → ℕ → Option (ℕ × ℕ)
  expired_run zero t boundary found = some (boundary, found)
  expired_run (suc limit) [] boundary found = some (boundary, found)
  expired_run (suc limit) ((o, raw) ∷ t) boundary found = elim (decode raw) [
    | none ↦ none
    | some m ↦
        if leb cutoff m.store_at_ms
        then some (boundary, found)
        else expired_run limit t (m.offset + 1) (found + 1)
  ]

  unfoldable pub purge_queue : Bool → Commit → Table (List ℕ) → Purged
  purge_queue leads commit t =
      if not leads
      then record { msgs = t; found = 0; led = false; failed = false }
      else elim (expired_run max_purge_per_queue t 0 0) [
        | none ↦ record { msgs = t; found = 0; led = true; failed = true }
        | some (boundary, found) ↦
            if found == 0
            then record { msgs = t; found = 0; led = true; failed = false }
            else commit_range commit boundary found t
      ]

-- The scan of purgeKeyIdx, with the number of entries that may still be found: the expired keys,
-- each with its queue; `none` is a key that does not parse. Without any left it ends behind an
-- entry, not before it.
unfoldable pub expired_keys : ℕ → ℕ → Records → Option (List (ℕ × List ℕ))
expired_keys cutoff left [] = some []
expired_keys cutoff left ((k, v) ∷ t) = elim (parse_key_idx_key k) [
  | none ↦ none
  | some (topic, key, ms, q, o) ↦
      let rest = expired_keys cutoff (left - 1) t in
      let same = expired_keys cutoff left t in
      if ltb ms cutoff
      then (if left == 1
          then some ((q, k) ∷ [])
          else elim rest [ none ↦ none | some found ↦ some ((q, k) ∷ found) ])
      else same
]

-- The keys of one bucket, deleted in one batch.
unfoldable pub delete_bucket : ℕ → List (ℕ × List ℕ) → Records → Records
delete_bucket q [] t = t
delete_bucket q ((j, k) ∷ found) t = delete_bucket q found (if j == q then delete k t else t)

-- The buckets in the order in which the map gives them; the first error ends the loop. The flag is
-- whether there was an error.
unfoldable pub apply_buckets :
    (ℕ → Bool) → (ℕ → Commit) → List (ℕ × List ℕ) → List ℕ → Records → Records × Bool
apply_buckets leads commit found [] t = (t, false)
apply_buckets leads commit found (q ∷ qs) t =
    let skipped = apply_buckets leads commit found qs t in
    let applied = apply_buckets leads commit found qs (delete_bucket q found t) in
    if not (leads q) then skipped else elim (commit q) [
      | rejected ↦ (t, true)
      | unsynced ↦ (delete_bucket q found t, true)
      | committed ↦ applied
    ]

unfoldable pub entries_of : List ℕ → Records → Records
entries_of topic [] = []
entries_of topic ((k, v) ∷ t) =
    let rest = entries_of topic t in
    let prefix = key_idx_topic_prefix topic in
    if in_range prefix (prefix_upper_bound prefix) k then (k, v) ∷ rest else rest

-- What the scan found, applied; nothing when it found nothing.
unfoldable pub apply_found :
    (ℕ → Bool) → (ℕ → Commit) → List (ℕ × List ℕ) → List ℕ → Records → Records × Bool
apply_found leads commit [] order t = (t, false)
apply_found leads commit (one ∷ more) order t = apply_buckets leads commit (one ∷ more) order t

-- purgeKeyIdx: `order` is the order of the buckets, one for each queue of the expired entries.
unfoldable pub purge_key_idx :
    (ℕ → Bool) → (ℕ → Commit) → List ℕ → List ℕ → ℕ → Records → Records × Bool
purge_key_idx leads commit order topic cutoff t =
    elim (expired_keys cutoff max_purge_per_queue (entries_of topic t)) [
      | none ↦ (t, true)
      | some found ↦ apply_found leads commit found order t
    ]

-- checkDisk: whether writes are blocked, from whether the check is enabled, what the probe says of
-- the watermark, if it succeeds, and what was before.
unfoldable pub check_disk : Bool → Option Bool → Bool → Bool
check_disk enabled over blocked =
    if not enabled then blocked else elim over [ none ↦ blocked | some b ↦ b ]
