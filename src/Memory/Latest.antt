-- ===== src/Memory/Latest.antt =====
-- What the rows of processes are made from.
use learn_pg.Prelude.{
  ℕ, ◌≡◌, refl, sym, ap, ◌∙◌, Bool, true, false, any, Option, none, some, List, [], ◌∷◌, inl, inr,
  arith, map, find, ◌==◌, string_eq, nat_eq, ltb, if◌then◌else◌, Bool-cases, Option-cases, beq→eq,
  beq_refl, subst,
}
use learn_pg.Prelude.Map.{get, set, get-set}
use learn_pg.Prelude.Number.{num, gt, number_eq}
use learn_pg.Events.{ProbeEvent}
use learn_pg.LockGraph.{Row, pid_of}
use learn_pg.Memory.{
  PgProcEntry, proc_of_row, build_proc_from_snapshot, or_else, tables, is_newer, keep_pid,
  latest_by_pid, proc_of_event, build_proc_from_events,
}

-- The later of two events, and the first where they have the same time.
abbrev pub later : Option ProbeEvent → Option ProbeEvent → Option ProbeEvent
later none o = o
later (some a) none = some a
later (some a) (some b) = if ltb a.timestamp b.timestamp then some b else some a

-- The event, if it is about the state of a transaction of process `p`.
abbrev pub of_process : ℕ → ProbeEvent → Option ProbeEvent
of_process p e = if e.type == "xact_state" then (if e.pid == p then some e else none) else none

-- The first of the latest events of process `p`.
unfoldable pub newest : ℕ → List ProbeEvent → Option ProbeEvent
newest p [] = none
newest p (e ∷ es) = later (of_process p e) (newest p es)

later-later : (a b c : Option ProbeEvent) → later (later a b) c ≡ later a (later b c)
later-later none b c = refl
later-later (some a) none c = refl
later-later (some a) (some b) none = ground arith
later-later (some a) (some b) (some c) = ground arith

later-none : (o : Option ProbeEvent) → later o none ≡ o
later-none none = refl
later-none (some a) = refl

-- What is kept is the later of the two, where the event is of the process.
kept : ProbeEvent → List (ℕ × ProbeEvent) → List (ℕ × ProbeEvent)
kept e m = if is_newer e (get e.pid m) then set e.pid e m else m

get-kept :
    (e : ProbeEvent) (m : List (ℕ × ProbeEvent))
    → get e.pid (kept e m) ≡ later (get e.pid m) (some e)
unfolding kept
get-kept e m = elim (Option-cases (get e.pid m)) [
  | inl none_yet ↦ rw none_yet (get-set e.pid e.pid e m ∙ (rw (beq_refl e.pid) refl))
  | inr (a, had) ↦ elim (Bool-cases (ltb a.timestamp e.timestamp)) [
    | inl newer ↦ rw (had, newer) (get-set e.pid e.pid e m ∙ (rw (beq_refl e.pid) refl))
    | inr older ↦ rw (had, older) had
  ]
]

get-kept_other :
    (p : ℕ) (e : ProbeEvent) (m : List (ℕ × ProbeEvent))
    → (e.pid == p) ≡ false
    → get p (kept e m) ≡ get p m
unfolding kept
get-kept_other p e m h = elim (Bool-cases (is_newer e (get e.pid m))) [
  | inl newer ↦ rw newer (get-set e.pid p e m ∙ (rw h refl))
  | inr older ↦ rw older refl
]

get-keep_pid :
    (p : ℕ) (e : ProbeEvent) (m : List (ℕ × ProbeEvent))
    → get p (keep_pid e m) ≡ later (get p m) (of_process p e)
unfolding keep_pid kept
get-keep_pid p e m = elim (Bool-cases (e.type == "xact_state")) [
  | inl xact ↦ elim (Bool-cases (e.pid == p)) [
    | inl same ↦
        rw (xact, same)
          (subst (λ q. get q (kept e m) ≡ later (get q m) (some e)) (beq→eq e.pid p same)
            (get-kept e m))
    | inr apart ↦ rw (xact, apart) (get-kept_other p e m apart ∙ sym (later-none (get p m)))
  ]
  | inr other ↦ rw other (sym (later-none (get p m)))
]

get-latest_by_pid :
    (p : ℕ) (es : List ProbeEvent) (m : List (ℕ × ProbeEvent))
    → get p (latest_by_pid es m) ≡ later (get p m) (newest p es)
unfolding latest_by_pid newest
get-latest_by_pid p [] m = sym (later-none (get p m))
get-latest_by_pid p (e ∷ es) m =
    get-latest_by_pid p es (keep_pid e m)
    ∙ ap (λ o. later o (newest p es)) (get-keep_pid p e m)
    ∙ later-later (get p m) (of_process p e) (newest p es)

abbrev pub row_of : ℕ → Option ProbeEvent → Option PgProcEntry
row_of p none = none
row_of p (some e) = some (proc_of_event (p, e))

find-rows :
    (p : ℕ) (m : List (ℕ × ProbeEvent))
    → find (λ r. r.pid == num p) (map proc_of_event m) ≡ row_of p (get p m)
unfolding get proc_of_event
find-rows p [] = refl
find-rows p ((q, e) ∷ m) = elim (Bool-cases (q == p)) [
  | inl hit ↦
      let same : q ≡ p = beq→eq q p hit in rw hit (ap (λ i. some (proc_of_event (i, e))) same)
  | inr miss ↦ rw miss (find-rows p m)
]

-- Of the events a row is made for a process from the first of its latest `xact_state` events.
find-build_proc_from_events :
    (p : ℕ) (es : List ProbeEvent)
    → find (λ r. r.pid == num p) (build_proc_from_events es) ≡ row_of p (newest p es)
unfolding build_proc_from_events get
find-build_proc_from_events p es =
    find-rows p (latest_by_pid es []) ∙ ap (row_of p) (get-latest_by_pid p es [])

-- A backend with a process id.
abbrev pub has_pid : Row → Bool
has_pid b = gt (pid_of b) (num 0)

-- The row of the first backend with the process id `p`, which is not 0.
abbrev row_from : Option Row → Option PgProcEntry
row_from none = none
row_from (some b) = some (proc_of_row b)

abbrev pub backend_row : ℕ → List Row → Option PgProcEntry
backend_row p backends = if ltb 0 p then row_from (find (λ b. pid_of b == num p) backends) else none

pid_of-positive : (p : ℕ) (b : Row) → (pid_of b == num p) ≡ true → has_pid b ≡ ltb 0 p
pid_of-positive p b h = ap (λ n. gt n (num 0)) (beq→eq (pid_of b) (num p) h)

find-build_proc_from_snapshot :
    (p : ℕ) (backends : List Row)
    → find (λ r. r.pid == num p) (build_proc_from_snapshot backends) ≡ backend_row p backends
unfolding build_proc_from_snapshot proc_of_row
find-build_proc_from_snapshot p [] = ground arith
find-build_proc_from_snapshot p (b ∷ bs) =
    let rest = find-build_proc_from_snapshot p bs in
    elim (Bool-cases (pid_of b == num p)) [
      | inl hit ↦ elim (Bool-cases (has_pid b)) [
        | inl shown ↦
            let positive : ltb 0 p ≡ true = sym (pid_of-positive p b hit) ∙ shown in
            rw (shown, hit, positive) refl
        | inr hidden ↦
            let none_left : ltb 0 p ≡ false = sym (pid_of-positive p b hit) ∙ hidden in
            rw (hidden, none_left) (rest ∙ (rw none_left refl))
      ]
      | inr miss ↦ elim (Bool-cases (has_pid b)) [
        | inl shown ↦ rw (shown, miss) rest
        | inr hidden ↦ rw (hidden, miss) rest
      ]
    ]

-- The page falls back on the events just where no backend has a process id.
or_else-build_proc_from_snapshot :
    (backends : List Row) (ys : List PgProcEntry)
    → or_else (build_proc_from_snapshot backends) ys
      ≡ (if any has_pid backends then build_proc_from_snapshot backends else ys)
unfolding build_proc_from_snapshot proc_of_row
or_else-build_proc_from_snapshot [] ys = refl
or_else-build_proc_from_snapshot (b ∷ bs) ys = elim (Bool-cases (has_pid b)) [
  | inl shown ↦ rw shown refl
  | inr hidden ↦ rw hidden (or_else-build_proc_from_snapshot bs ys)
]

-- The row that the memory page shows for a process: where the snapshot has a backend with a process id,
-- that of the first backend of the process, and none for the process id 0; else one that is made from
-- the first of the latest `xact_state` events of the process, and none where it has no such event.
pub find-tables :
    (p : ℕ) (backends : List Row) (es : List ProbeEvent)
    → find (λ r. r.pid == num p) (tables backends es).procs
      ≡ (if any has_pid backends then backend_row p backends else row_of p (newest p es))
unfolding tables
find-tables p backends es =
    ap (find (λ r. r.pid == num p))
      (or_else-build_proc_from_snapshot backends (build_proc_from_events es))
    ∙ elim (Bool-cases (any has_pid backends)) [
      | inl some_shown ↦ rw some_shown (find-build_proc_from_snapshot p backends)
      | inr none_shown ↦ rw none_shown (find-build_proc_from_events p es)
    ]
