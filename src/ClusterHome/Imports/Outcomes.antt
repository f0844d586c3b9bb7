-- ===== src/ClusterHome/Imports/Outcomes.antt =====
-- How scans and imports end.
use learn_pg.Prelude.{
  ℕ, ◌+◌, ◌≤◌, ◌≡◌, refl, Bool, true, false, ◌&&◌, Option, none, some, String, head?, length, List,
  [], ◌∷◌, sum, leb, ltb, get_or, ap, ◌∙◌, subst, ◌==◌, string_eq, ◌++ₛ◌, length-take,
  if◌then◌else◌, Bool-cases, inl, inr, arith,
}
use learn_pg.Provision.Backend.{is_given}
use learn_pg.ClusterHome.Imports.{
  Answer, threw, replied, Outcome, failed, succeeded, outcome, Reply, Log, Adding, add_log,
  Instance, ScanBody, scanned, imported, ImportBody, ValidateBody, reached, highlight,
  dsn_validated, dsn_imported, settle_dsn, settle_import, settle_scan, begin_scan, begin_import,
  begin_dsn, trimmed, place, status_text, Event, scan_begins, scan_settles, import_begins,
  import_settles, dsn_begins, dsn_settles, step, run,
}

abbrev is_success : {A : Type 0} → Outcome A → Bool
is_success (failed m) = false
is_success (succeeded b) = true

-- The answer of a request that went well, as far as its status and `success` tell.
abbrev pub is_fine : (status : ℕ) → Reply → Bool
is_fine status reply = leb 200 status && ltb status 300 && reply.success

-- The server answers that the DSN can be reached, and then that it has been imported.
abbrev pub dsn_succeeds : Answer ValidateBody → Answer ImportBody → Bool
dsn_succeeds (replied v val) (replied i imp) =
    is_fine v val.reply && val.reachable && is_fine i imp.reply
dsn_succeeds _ _ = false

-- For a handler that ends, whether it went well.
abbrev pub verdict : Event → Option Bool
verdict (scan_settles now (replied status b)) = some (is_fine status b.reply)
verdict (scan_settles now (threw m)) = some false
verdict (import_settles now i (replied status b)) = some (is_fine status b.reply)
verdict (import_settles now i (threw m)) = some false
verdict (dsn_settles now val imp) = some (dsn_succeeds val imp)
verdict _ = none

-- An import that went well.
abbrev pub imports : Event → Bool
imports (scan_settles now answer) = false
imports e = get_or (verdict e) false

abbrev level_of : Option Log → String
level_of none = ""
level_of (some l) = l.level

abbrev pub newest_level : Adding → String
newest_level s = level_of (head? s.import_logs)

abbrev pub level_for : Bool → String
level_for gone_well = if gone_well then "success" else "error"

-- What a handler that ends leaves of `s`: the newest entry of the log tells whether it has gone well, and
-- the workspace has been `reloaded` or not.
abbrev EndsAs : (reloaded gone_well : Bool) → Adding → Adding → Type 0
EndsAs reloaded gone_well s t =
    (newest_level t ≡ level_for gone_well)
    × (t.reloads ≡ s.reloads + (if reloaded then 1 else 0))
    × (length t.import_logs ≤ 20)

add_log-EndsAs :
    (now : ℕ) (gone_well : Bool) (m : String) (s : Adding)
    → EndsAs false gone_well s (add_log now (level_for gone_well) m s)
unfolding add_log
add_log-EndsAs now gone_well m s = (refl, omega arith, omega (arith, length-take 19 s.import_logs))

highlight-EndsAs :
    (b : Bool) (id : Option String) (s t : Adding) → EndsAs b b s t → EndsAs b b s (highlight id t)
highlight-EndsAs b id s t h = elim (Bool-cases (is_given id)) [
  | inl given ↦ rw given h
  | inr missing ↦ rw missing h
]

scanned-EndsAs :
    (now : ℕ) (o : Outcome ScanBody) (s : Adding) → EndsAs false (is_success o) s (scanned now o s)
scanned-EndsAs now (failed m) s = add_log-EndsAs now false _ (record s { scan_error = m })
scanned-EndsAs now (succeeded b) s =
    add_log-EndsAs now true _ (record s { instances = get_or b.instances [] })

imported-EndsAs :
    (now : ℕ) (i : Instance) (o : Outcome ImportBody) (s : Adding)
    → EndsAs (is_success o) (is_success o) s (imported now i o s)
imported-EndsAs now i (failed m) s = add_log-EndsAs now false _ (record s { scan_error = m })
imported-EndsAs now i (succeeded b) s =
    let (level, same, bound) =
      add_log-EndsAs now true ("导入成功 " ++ₛ place i) (record s { reloads = s.reloads + 1 }) in
    highlight-EndsAs true b.node_id s _ (level, omega (arith, same), bound)

dsn_imported-EndsAs :
    (now : ℕ) (version : Option String) (imp : Outcome ImportBody) (s : Adding)
    → EndsAs (is_success imp) (is_success imp) s (dsn_imported now version imp s)
unfolding add_log
dsn_imported-EndsAs now version (failed m) s =
    add_log-EndsAs now false ("导入失败：" ++ₛ m) (record s { dsn_message = m })
dsn_imported-EndsAs now version (succeeded b) s =
    highlight-EndsAs true b.node_id s _ (refl, refl, omega (arith, length-take 19 s.import_logs))

dsn_validated-EndsAs :
    (now : ℕ) (val : Outcome ValidateBody) (imp : Outcome ImportBody) (s : Adding)
    → let b = is_success val && is_success imp in EndsAs b b s (dsn_validated now val imp s)
unfolding add_log
dsn_validated-EndsAs now (failed m) imp s =
    add_log-EndsAs now false ("导入失败：" ++ₛ m) (record s { dsn_message = m })
dsn_validated-EndsAs now (succeeded v) imp s = dsn_imported-EndsAs now v.version imp _

outcome-fine :
    {A : Type 0} (reply : A → Reply) (message : ℕ → String) (status : ℕ) (body : A)
    → is_success (outcome reply message (replied status body)) ≡ is_fine status (reply body)
unfolding outcome
outcome-fine reply message status body =
    elim (Bool-cases (leb 200 status && leb status 299 && (reply body).success)) [
      | inl fine ↦ rw fine (ground (arith, fine))
      | inr bad ↦ rw bad (ground (arith, bad))
    ]

both_fine :
    (val : Answer ValidateBody) (imp : Answer ImportBody) (m n : ℕ → String)
    → (is_success (outcome reached m val) && is_success (outcome (λ b. b.reply) n imp))
      ≡ dsn_succeeds val imp
unfolding outcome
both_fine (threw x) imp m n = refl
both_fine (replied v val) (threw y) m n = ground arith
both_fine (replied v val) (replied i imp) m n =
    rw (outcome-fine reached m v val, outcome-fine (λ b. b.reply) n i imp) (ground arith)

-- What an event does to the log and the workspace.
abbrev Does : Event → Adding → Adding → Type 0
Does e s t =
    (t.reloads ≡ s.reloads + (if imports e then 1 else 0))
    × (length t.import_logs ≤ 20)
    × ((b : Bool) → verdict e ≡ some b → newest_level t ≡ level_for b)

ends-Does :
    (e : Event) (b : Bool) (s t : Adding)
    → verdict e ≡ some b
    → EndsAs (imports e) b s t
    → Does e s t
ends-Does e b s t v h = (h.1, h.2, λ c w. let same : b ≡ c = cc in h.0 ∙ ap level_for same)

settle_scan-Does :
    (now : ℕ) (answer : Answer ScanBody) (s : Adding)
    → Does (scan_settles now answer) s (settle_scan now answer s)
unfolding settle_scan outcome
settle_scan-Does now (threw m) s =
    ends-Does (scan_settles now (threw m)) false s (settle_scan now (threw m) s) refl
      (scanned-EndsAs now (failed m) s)
settle_scan-Does now (replied status b) s =
    let o = outcome (λ b. b.reply) status_text (replied status b) in
    ends-Does (scan_settles now (replied status b)) (is_fine status b.reply) s
      (settle_scan now (replied status b) s) refl
      (subst (λ w. EndsAs false w s (scanned now o s))
        (outcome-fine (λ b. b.reply) status_text status b) (scanned-EndsAs now o s))

settle_import-Does :
    (now : ℕ) (i : Instance) (answer : Answer ImportBody) (s : Adding)
    → Does (import_settles now i answer) s (settle_import now i answer s)
unfolding settle_import outcome
settle_import-Does now i (threw m) s =
    ends-Does (import_settles now i (threw m)) false s (settle_import now i (threw m) s) refl
      (imported-EndsAs now i (failed m) s)
settle_import-Does now i (replied status b) s =
    let o = outcome (λ b. b.reply) status_text (replied status b) in
    ends-Does (import_settles now i (replied status b)) (is_fine status b.reply) s
      (settle_import now i (replied status b) s) refl
      (subst (λ w. EndsAs w w s (imported now i o s))
        (outcome-fine (λ b. b.reply) status_text status b) (imported-EndsAs now i o s))

settle_dsn-Does :
    (now : ℕ) (val : Answer ValidateBody) (imp : Answer ImportBody) (s : Adding)
    → Does (dsn_settles now val imp) s (settle_dsn now val imp s)
unfolding settle_dsn
settle_dsn-Does now val imp s =
    let v = outcome reached (λ status. "DSN 校验失败") val in
    let o = outcome (λ b. b.reply) (λ status. "DSN 导入失败") imp in
    ends-Does (dsn_settles now val imp) (dsn_succeeds val imp) s (settle_dsn now val imp s) refl (
      subst (λ w. EndsAs w w s (dsn_validated now v o s)) (both_fine val imp _ _)
        (dsn_validated-EndsAs now v o s))

step-Does : (e : Event) (s : Adding) → length s.import_logs ≤ 20 → Does e s (step e s)
unfolding step begin_scan begin_import begin_dsn add_log
step-Does (scan_begins now) s h =
    (omega arith, omega (arith, length-take 19 s.import_logs), λ b v. absurd (cc))
step-Does (import_begins now i) s h =
    (omega arith, omega (arith, length-take 19 s.import_logs), λ b v. absurd (cc))
step-Does (dsn_begins now) s h = elim (Bool-cases (trimmed s.dsn == "")) [
  | inl blank ↦ rw blank (omega arith, h, λ b v. absurd (cc))
  | inr full ↦
      rw full (omega arith, omega (arith, length-take 19 s.import_logs), λ b v. absurd (cc))
]
step-Does (scan_settles now answer) s h = settle_scan-Does now answer s
step-Does (import_settles now i answer) s h = settle_import-Does now i answer s
step-Does (dsn_settles now val imp) s h = settle_dsn-Does now val imp s

run-Does :
    (es : List Event) (s : Adding)
    → length s.import_logs ≤ 20
    → ((run es s).reloads ≡ s.reloads + sum (λ e. if imports e then 1 else 0) es)
      × (length (run es s).import_logs ≤ 20)
unfolding run
run-Does [] s h = (omega arith, h)
run-Does (e ∷ es) s h =
    let now = step-Does e s h in
    let later = run-Does es (step e s) now.1 in (omega (arith, now.0, later.0), later.1)

-- However scans and imports on the tab overlap, from a log of at most 20 entries on, the workspace is
-- reloaded once for every import that went well and not else; the log keeps at most 20 entries; and the
-- newest entry after a handler has ended is a success where it went well, and else an error. A request
-- went well where its status is 200 to 299 and the body tells of a success; an import of a DSN where
-- both its requests did and the server could be reached.
pub run-reloads :
    (es : List Event) (s : Adding)
    → length s.import_logs ≤ 20
    → ((run es s).reloads ≡ s.reloads + sum (λ e. if imports e then 1 else 0) es)
      × (length (run es s).import_logs ≤ 20)
      × ((e : Event) (b : Bool)
          → verdict e ≡ some b
          → newest_level (step e (run es s)) ≡ level_for b)
run-reloads es s h =
    let (reloaded, bound) = run-Does es s h in
    (reloaded, bound, λ e. (step-Does e (run es s) bound).2)
