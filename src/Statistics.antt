-- ===== src/Statistics.antt =====
-- The figures that pages show: `computeStats` of frontend/src/components/buffer/BufferHeatmapView.tsx, the
-- statistics of frontend/src/components/workspace/ProjectHomeView.tsx, and those of
-- frontend/src/components/clog/CLOGViewer.tsx.
pub mod Totals
mod Tests
use learn_pg.Prelude.{
  ℕ, ◌+◌, ◌-◌, ◌*◌, Bool, true, false, Option, none, some, List, [], ◌∷◌, map, String, length,
  filter, sum, if◌then◌else◌, ◌==◌, string_eq, ltb,
}
use learn_pg.Workspace.Types.{Cluster, Project}
use learn_pg.Visualization.Buffers.{BufferCell}

-- A quotient is its numerator and denominator; there is none where the source shows 0.
abbrev pub Quotient : Type 0
Quotient = Option (ℕ × ℕ)

abbrev pub quotient : ℕ → ℕ → Quotient
quotient a b = if ltb 0 b then some (a, b) else none

pub record BufferStats : Type 0 where
  pub total : ℕ
  pub used : ℕ
  pub used_pct : Quotient
  pub dirty : ℕ
  pub dirty_pct : Quotient
  pub pinned : ℕ
  pub avg_hit : Quotient

abbrev pub is_used : BufferCell → Bool
is_used b = ltb 0 b.hit_count

unfoldable pub compute_stats : List BufferCell → BufferStats
compute_stats cells =
    let used = filter is_used cells in
    let dirty = filter (λ b. b.is_dirty) cells in
    record {
      total = length cells;
      used = length used;
      used_pct = quotient (length used * 100) (length cells);
      dirty = length dirty;
      dirty_pct = quotient (length dirty * 100) (length used);
      pinned = length (filter (λ b. b.is_pinned) cells);
      avg_hit = quotient (sum (λ b. b.hit_count) used) (length used);
    }

pub record ProjectStats : Type 0 where
  pub cluster_count : ℕ
  pub node_count : ℕ
  pub component_count : ℕ
  pub primary_count : ℕ
  pub standby_count : ℕ

abbrev pub nodes_of : Project → ℕ
nodes_of p = sum (λ c. length c.nodes) p.clusters

abbrev pub primaries_of : Cluster → ℕ
primaries_of c = length (filter (λ n. n.role == "primary") c.nodes)

unfoldable pub get_project_stats : Project → ProjectStats
get_project_stats p = record {
  cluster_count = length p.clusters;
  node_count = nodes_of p;
  component_count = length p.components;
  primary_count = sum primaries_of p.clusters;
  standby_count = nodes_of p - sum primaries_of p.clusters;
}

pub record TotalStats : Type 0 where
  pub projects : ℕ
  pub clusters : ℕ
  pub nodes : ℕ
  pub components : ℕ

unfoldable pub total_stats : List Project → TotalStats
total_stats ps = record {
  projects = length ps;
  clusters = sum (λ p. length p.clusters) ps;
  nodes = sum nodes_of ps;
  components = sum (λ p. length p.components) ps;
}

pub record ClogStats : Type 0 where
  pub in_progress : ℕ
  pub committed : ℕ
  pub aborted : ℕ
  pub subtrans : ℕ
  pub total : ℕ

abbrev pub no_clog : ClogStats
no_clog = record { in_progress = 0; committed = 0; aborted = 0; subtrans = 0; total = 0 }

-- One round of `data.transactions.forEach`.
unfoldable pub count_status : String → ClogStats → ClogStats
count_status status s =
    if status == "in-progress"
    then record s { in_progress = s.in_progress + 1 }
    else if status == "committed"
    then record s { committed = s.committed + 1 }
    else if status == "aborted"
    then record s { aborted = s.aborted + 1 }
    else if status == "subtrans"
    then record s { subtrans = s.subtrans + 1 }
    else s

unfoldable pub count_statuses : List String → ClogStats → ClogStats
count_statuses [] s = s
count_statuses (t ∷ ts) s = count_statuses ts (count_status t s)

-- `fetchCLOGStats` after the answer: `failed` where a request or its body threw; the transactions are the
-- statuses, if the body has any.
pub data ClogAnswer : Type 0 where
  failed : ClogAnswer
  body : Option (List String) → ClogAnswer

unfoldable pub fetch_clog_stats : ClogAnswer → ClogStats → ClogStats
unfolding count_statuses
fetch_clog_stats failed s = no_clog
fetch_clog_stats (body none) s = s
fetch_clog_stats (body (some ts)) s = count_statuses ts (record no_clog { total = length ts })
