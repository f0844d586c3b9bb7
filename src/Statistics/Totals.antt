-- ===== src/Statistics/Totals.antt =====
-- How the figures go together.
use learn_pg.Prelude.{
  ℕ, ◌+◌, ◌≤◌, ◌≡◌, ◌∙◌, some, refl, List, [], ◌∷◌, String, length, filter, sum, ◌==◌, string_eq,
  arith,
}
use learn_pg.Workspace.Types.{Node, Cluster, Project}
use learn_pg.Statistics.{
  get_project_stats, primaries_of, ClogStats, no_clog, count_status, count_statuses,
  fetch_clog_stats, body,
}

-- The transactions counted under one of the four statuses.
abbrev pub counted : ClogStats → ℕ
counted s = s.in_progress + s.committed + s.aborted + s.subtrans

counted-count_status : (t : String) (s : ClogStats) → counted (count_status t s) ≤ counted s + 1
unfolding count_status
counted-count_status t s = ground arith

counted-count_statuses :
    (ts : List String) (s : ClogStats) → counted (count_statuses ts s) ≤ counted s + length ts
unfolding count_statuses
counted-count_statuses [] s = omega arith
counted-count_statuses (t ∷ ts) s =
    omega (arith, counted-count_status t s, counted-count_statuses ts (count_status t s))

primaries_of-bound : (c : Cluster) → primaries_of c ≤ length c.nodes
primaries_of-bound c = bound c.nodes
  where
    bound : (ns : List Node) → length (filter (λ n. n.role == "primary") ns) ≤ length ns
    bound [] = omega arith
    bound (n ∷ ns) = ground (arith, bound ns)

-- The primaries and the standbys of a project are all of its nodes.
pub standbys-get_project_stats :
    (p : Project)
    → (get_project_stats p).primary_count + (get_project_stats p).standby_count
      ≡ (get_project_stats p).node_count
unfolding get_project_stats
standbys-get_project_stats p = omega (arith, bound p.clusters)
  where
    bound : (cs : List Cluster) → sum primaries_of cs ≤ sum (λ c. length c.nodes) cs
    bound [] = omega arith
    bound (c ∷ cs) = omega (arith, primaries_of-bound c, bound cs)

total-count_status : (t : String) (s : ClogStats) → (count_status t s).total ≡ s.total
unfolding count_status
total-count_status t s = ground arith

total-count_statuses : (ts : List String) (s : ClogStats) → (count_statuses ts s).total ≡ s.total
unfolding count_statuses
total-count_statuses [] s = refl
total-count_statuses (t ∷ ts) s =
    total-count_statuses ts (count_status t s) ∙ total-count_status t s

-- The transactions that the page counts under a status are at most those that it counts in all.
pub counted-fetch_clog_stats :
    (ts : List String) (s : ClogStats)
    → counted (fetch_clog_stats (body (some ts)) s) ≤ (fetch_clog_stats (body (some ts)) s).total
unfolding fetch_clog_stats
counted-fetch_clog_stats ts s =
    let start : ClogStats = record no_clog { total = length ts } in
    omega (arith, counted-count_statuses ts start, total-count_statuses ts start)
