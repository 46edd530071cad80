-- ===== src/Tests/Components.antt =====
-- The theorems on the components, at concrete inputs.
use madaodv_ns.Base.{◌≡◌, refl, true, ◌==◌, ◌||◌, some, [], ◌∷◌, map, any, reject, select, arith}
use madaodv_ns.Int.{pos, ◌≤ℤ◌, ◌+ℤ◌, ◌-ℤ◌}
use madaodv_ns.Map.{find}
use madaodv_ns.Entry.{Entry, valid, flag_eq, is_outdated, invalidate}
use madaodv_ns.RoutingTable.{purge_entry}
use madaodv_ns.RoutingTable.Spec.{apply, invalidates, view, apply_refines}
use madaodv_ns.RoutingTable.Invariant.{IsValid}
use madaodv_ns.IdCache
use madaodv_ns.IdCache.{IdCache, is_duplicate}
use madaodv_ns.IdCache.Memory.{run, is_duplicate-run}
use madaodv_ns.RequestQueue.{enqueue}
use madaodv_ns.RequestQueue.Bound.{Returns, Enqueued, enqueue_lem}
use madaodv_ns.Neighbors.{has_address, process_tx_error, is_neighbor, update, get_expire_time}
use madaodv_ns.Neighbors.Closing.{breaks, process_tx_error_lem}
use madaodv_ns.Neighbors.Liveness.{IsTidy, update_lem}
use madaodv_ns.Tests.Data.{test_arp, test_entry, test_table, test_queue, test_neighbors, queued}

abbrev some_entry : Entry
some_entry = test_entry 60 50 8 3 valid (pos 5000)

pub test_table-IsValid : IsValid test_table
test_table-IsValid = record {
  sorted = (omega arith, (omega arith, (omega arith, (omega arith, tt))));
  keyed = (refl, (refl, (refl, (refl, tt))));
}

apply_refines_example :
    view (apply (invalidates (pos 1000) ((50, 4) ∷ (60, 8) ∷ [])) test_table) 60
    ≡ some (invalidate (pos 1000) (pos 15000) some_entry)
unfolding purge_entry find flag_eq is_outdated ◌-ℤ◌
apply_refines_example =
    apply_refines (invalidates (pos 1000) ((50, 4) ∷ (60, 8) ∷ [])) test_table 60
      test_table-IsValid.sorted

abbrev cache : IdCache
cache = record { ids = record { context = 10; id = 1; expire = pos 2000 } ∷ []; lifetime = pos 100 }

is_duplicate-run_example :
    (is_duplicate
      (pos 1080)
      20
      2
      (run ((pos 1030, 10, 3) ∷ []) (is_duplicate (pos 1000) 20 2 cache).0)).1
    ≡ true
unfolding is_duplicate IdCache.purge IdCache.is_expired any reject ◌+ℤ◌
is_duplicate-run_example =
    is_duplicate-run (pos 1000) (pos 1080) 20 2 ((pos 1030, 10, 3) ∷ []) cache refl (omega arith)
      (omega arith) (omega arith, tt)

enqueue_lem_example :
    Returns
      (Enqueued (pos 5) (queued 4 60 (pos 0)) test_queue)
      (enqueue (pos 5) (queued 4 60 (pos 0)) test_queue)
enqueue_lem_example =
    enqueue_lem (pos 5) (queued 4 60 (pos 0)) test_queue (omega arith) (omega arith)

process_tx_error_lem_example :
    let (s, failures) = process_tx_error (pos 1000) 5 test_neighbors in
    (s.nb ≡ reject (breaks (pos 1000) 5) test_neighbors.nb)
    × (failures ≡ map (λ n. n.address) (select (breaks (pos 1000) 5) test_neighbors.nb))
process_tx_error_lem_example = process_tx_error_lem (pos 1000) 5 test_neighbors

update_lem_example :
    let s = (update test_arp (pos 1000) 51 (pos 300) test_neighbors).0 in
    IsTidy s.nb
    × ((is_neighbor (pos 1000) 50 s).2 ≡ (50 == 51) || (is_neighbor (pos 1000) 50 test_neighbors).2)
    × (pos 300 ≤ℤ (get_expire_time (pos 1000) 51 s).2)
unfolding any has_address
update_lem_example =
    update_lem test_arp (pos 1000) 51 50 (pos 300) test_neighbors (omega arith)
      (refl, refl, (refl, refl, tt))
