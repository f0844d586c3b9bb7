-- ===== src/Breadcrumbs.antt =====
-- The type `Breadcrumb` of frontend/src/lib/errorReporter.ts, without its time stamp.
use learn_pg.Prelude.{Option, List, String}
use learn_pg.Events.{Value}

pub data Kind : Type 0 where
  log click nav ws fetch : Kind

pub data Level : Type 0 where
  info warn error : Level

-- `Omit<Breadcrumb, 'timestamp'>`; the field `data` is `details`.
pub record Crumb : Type 0 where
  pub kind : Kind
  pub level : Option Level
  pub message : String
  pub details : List (String × Value)
