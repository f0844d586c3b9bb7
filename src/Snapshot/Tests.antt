-- ===== src/Snapshot/Tests.antt =====
-- Tests of the transactions of a snapshot.
use learn_pg.Prelude.{◌≡◌, refl, List, [], ◌∷◌, map, arith, string_eq}
use learn_pg.Prelude.Map.{get}
use learn_pg.Prelude.Number.{num}
use learn_pg.Api.Url.{starts}
use learn_pg.LockGraph.{Row}
use learn_pg.Visualization.Transactions.{idle}
use learn_pg.Snapshot.{
  includes, mapped_state, snapshot_transaction, build_transactions_from_snapshot,
  snapshot_lists_all,
}

abbrev backends : List Row
backends = (("state", "idle in transaction") ∷ []) ∷ []

idle_in_transaction : mapped_state "Idle in transaction" ≡ idle
unfolding mapped_state includes starts
idle_in_transaction = refl

snapshot_lists_all_example :
    (build_transactions_from_snapshot backends (num 7)
      ≡ map (snapshot_transaction (num 7)) backends)
    × ((snapshot_transaction (num 7) (("state", "idle in transaction") ∷ [])).xid ≡ num 7)
unfolding get
snapshot_lists_all_example =
    snapshot_lists_all backends 7 (("state", "idle in transaction") ∷ []) (omega arith) refl
