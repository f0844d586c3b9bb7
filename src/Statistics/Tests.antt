-- ===== src/Statistics/Tests.antt =====
-- Tests of the figures.
use learn_pg.Prelude.{◌≡◌, refl, some, [], ◌∷◌}
use learn_pg.Statistics.{fetch_clog_stats, body, count_statuses, count_status, no_clog}

-- A status of another name is in the total only.
counts_of_statuses :
    fetch_clog_stats (body (some ("committed" ∷ "aborted" ∷ "committed" ∷ "other" ∷ []))) no_clog
    ≡ record { in_progress = 0; committed = 2; aborted = 1; subtrans = 0; total = 4 }
unfolding fetch_clog_stats count_statuses count_status
counts_of_statuses = refl
