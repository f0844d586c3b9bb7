-- ===== src/Snapshot.antt =====
-- `buildTransactionsFromSnapshot` of frontend/src/App.tsx: the transactions of a snapshot, one row for
-- each backend. The states of backends are ASCII texts.
pub mod Polling
mod Tests
use learn_pg.Prelude.{
  ℕ, zero, suc, ◌<◌, ◌≡◌, refl, ap, ap₂, ◌∙◌, sym, inl, inr, Bool, true, false, ◌||◌, Option, none,
  some, List, [], ◌∷◌, map, String, length, filter, if◌then◌else◌, get_or, string_eq, All, arith,
  Bool-cases, Option-cases,
}
use learn_pg.Prelude.Map.{get}
use learn_pg.Prelude.Number.{Number, num, nan, or_number, gt}
use learn_pg.Api.Url.{starts}
use learn_pg.LockGraph.{Row, number_of, column}
use learn_pg.Visualization.Transactions.{XactState, idle, started, in_progress, TransactionState}

-- `text.toLowerCase().includes(word)` for a word of small letters.
unfoldable pub includes : List ℕ → String → Bool
unfolding starts
includes word String.[] = starts word ""
includes word (String.◌∷◌ c s) = starts word (String.◌∷◌ c s) || includes word s

abbrev pub idle_word : List ℕ
idle_word = b'i' ∷ b'd' ∷ b'l' ∷ b'e' ∷ []

abbrev pub active_word : List ℕ
active_word = b'a' ∷ b'c' ∷ b't' ∷ b'i' ∷ b'v' ∷ b'e' ∷ []

unfoldable pub mapped_state : String → XactState
unfolding includes
mapped_state s =
    if includes idle_word s then idle else if includes active_word s then in_progress else started

-- `Number(b.backend_xid ?? 0) || currentXid || 0`
abbrev pub xid_of : Number → Row → Number
xid_of current b = or_number (or_number (number_of (get "backend_xid" b)) current) (num 0)

unfoldable pub snapshot_transaction : Number → Row → TransactionState
unfolding mapped_state
snapshot_transaction current b = record {
  xid = xid_of current b;
  vxid = column "backend_xmin" "" b;
  state = mapped_state (column "state" "" b);
  start_time_us = none;
  end_time_us = none;
  lsn = none;
}

abbrev pub shown : TransactionState → Bool
shown t = gt t.xid (num 0)

unfoldable pub build_transactions_from_snapshot : List Row → Number → List TransactionState
unfolding snapshot_transaction
build_transactions_from_snapshot backends current =
    filter shown (map (snapshot_transaction current) backends)

positive_or :
    (a : Number) (n : ℕ) → 0 < n → gt (or_number (or_number a (num n)) (num 0)) (num 0) ≡ true
positive_or (num m) n h = ground (arith, h)
positive_or nan n h = ground (arith, h)

filter-All {ℓ} :
    {A : Type ℓ} (p : A → Bool) (xs : List A) → All (λ x. p x ≡ true) xs → filter p xs ≡ xs
filter-All p [] h = refl
filter-All p (x ∷ xs) h = ground (arith, h.0, filter-All p xs h.1)

-- Once the database has a current transaction id, the page lists a transaction for every backend, in
-- order; a backend `b` that has no transaction id of its own gets the current one.
pub snapshot_lists_all :
    (backends : List Row) (current : ℕ) (b : Row)
    → 0 < current
    → number_of (get "backend_xid" b) ≡ num 0
    → (build_transactions_from_snapshot backends (num current)
        ≡ map (snapshot_transaction (num current)) backends)
      × ((snapshot_transaction (num current) b).xid ≡ num current)
unfolding build_transactions_from_snapshot snapshot_transaction
snapshot_lists_all backends current b h none_own = (
  filter-All shown (map (snapshot_transaction (num current)) backends) (all_shown backends),
  ap (λ a. or_number (or_number a (num current)) (num 0)) none_own ∙ fallback,
)
  where
    all_shown :
        (bs : List Row) → All (λ t. shown t ≡ true) (map (snapshot_transaction (num current)) bs)
    all_shown [] = tt
    all_shown (b ∷ bs) = (positive_or (number_of (get "backend_xid" b)) current h, all_shown bs)

    fallback : or_number (num current) (num 0) ≡ num current
    fallback = ground (arith, h)
