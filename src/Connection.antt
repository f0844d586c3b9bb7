-- ===== src/Connection.antt =====
-- frontend/src/stores/pgStore.ts and the handlers of
-- frontend/src/components/connection/ConnectionManager.tsx. New ids are arguments. A handler that awaits
-- an answer is split before it.
pub mod Profiles
mod Tests
use learn_pg.Prelude.{
  ℕ, Bool, true, false, not, Option, none, some, List, [], ◌∷◌, ◌++◌, map, String, any, filter,
  get_or, if◌then◌else◌, ◌==◌, ◌&&◌, string_eq, nat_eq, ◌++ₛ◌, show,
}
use learn_pg.Workspace.Types.{Settings}
use learn_pg.Provision.Backend.{text_or, is_given}

-- `PGConfig` is `Settings`.
pub record PgState : Type 0 where
  pub connected : Bool
  pub version : String
  pub data_dir : String
  pub config : Settings
  pub active_node_id : Option String

abbrev pub new_store : PgState
new_store = record {
  connected = false;
  version = "";
  data_dir = "";
  config = record { host = "pgv-postgres"; port = 5_432; user = "postgres"; database = "postgres" };
  active_node_id = none;
}

pub data Setter : Type 0 where
  set_connected : Bool → Setter
  set_version set_data_dir : String → Setter
  set_config : Settings → Setter
  set_active_node_id : Option String → Setter

unfoldable pub apply : Setter → PgState → PgState
apply (set_connected v) s = record s { connected = v }
apply (set_version v) s = record s { version = v }
apply (set_data_dir v) s = record s { data_dir = v }
apply (set_config c) s = record s { config = c }
apply (set_active_node_id id) s = record s { active_node_id = id }

pub record ConnectionProfile : Type 0 where
  pub id : String
  pub name : String
  pub host : String
  pub port : ℕ
  pub user : String
  pub password : String
  pub database : String

-- `Partial<ConnectionProfile>`
pub record Draft : Type 0 where
  pub id : Option String
  pub name : Option String
  pub host : Option String
  pub port : Option ℕ
  pub user : Option String
  pub password : Option String
  pub database : Option String

pub record Manager : Type 0 where
  pub profiles : List ConnectionProfile
  pub active_profile : Option ConnectionProfile
  pub editing_profile : Option Draft
  pub is_editing : Bool
  pub connecting : Bool
  pub error : String

-- `port || 5432`
abbrev port_or : Option ℕ → ℕ → ℕ
port_or none d = d
port_or (some n) d = if n == 0 then d else n

abbrev pub profile_of : (new_id : String) → Draft → ConnectionProfile
profile_of new_id d = record {
  id = text_or d.id new_id;
  name = text_or d.name "";
  host = text_or d.host "localhost";
  port = port_or d.port 5_432;
  user = text_or d.user "postgres";
  password = text_or d.password "";
  database = text_or d.database "postgres";
}

unfoldable pub upsert : ConnectionProfile → List ConnectionProfile → List ConnectionProfile
upsert profile ps =
    if any (λ p. p.id == profile.id) ps
    then map (λ p. if p.id == profile.id then profile else p) ps
    else ps ++ profile ∷ []

abbrev pub saved_draft : (new_id : String) → Option Draft → Manager → Manager
saved_draft new_id none s = s
saved_draft new_id (some d) s =
    if is_given d.name && is_given d.host
    then record s {
      profiles = upsert (profile_of new_id d) s.profiles;
      editing_profile = none;
      is_editing = false;
    }
    else s

unfoldable pub handle_save_profile : (new_id : String) → Manager → Manager
unfolding upsert
handle_save_profile new_id s = saved_draft new_id s.editing_profile s

unfoldable pub handle_delete_profile : String → Manager → Manager
handle_delete_profile id s = record s { profiles = filter (λ p. not (p.id == id)) s.profiles }

unfoldable pub start_add : Settings → Manager → Manager
start_add cfg s = record s {
  editing_profile = some (record {
    id = none;
    name = none;
    host = some cfg.host;
    port = some cfg.port;
    user = some cfg.user;
    password = some "";
    database = some cfg.database;
  });
  is_editing = true;
}

abbrev pub draft_of : ConnectionProfile → Draft
draft_of p = record {
  id = some p.id;
  name = some p.name;
  host = some p.host;
  port = some p.port;
  user = some p.user;
  password = some p.password;
  database = some p.database;
}

unfoldable pub start_edit : ConnectionProfile → Manager → Manager
start_edit p s = record s { editing_profile = some (draft_of p); is_editing = true }

unfoldable pub cancel_edit : Manager → Manager
cancel_edit s = record s { editing_profile = none; is_editing = false }

-- What `api.post` gives: a body, an `ApiError` or another error.
pub data Answer : Type 0 where
  body : (success : Bool) → (version message : Option String) → Answer
  api_error : (status : ℕ) → (message : String) → Answer
  other_error : (message : String) → Answer

unfoldable pub begin_connect : Manager → Manager
begin_connect s = record s { connecting = true; error = "" }

abbrev pub settings_of : ConnectionProfile → Settings
settings_of p = record { host = p.host; port = p.port; user = p.user; database = p.database }

abbrev pub store_connected : ConnectionProfile → Option String → PgState → PgState
store_connected p version st = record st {
  config = settings_of p;
  connected = true;
  version = text_or version "";
}

-- The rest of `handleConnect`; the page is told of the connection together with the store.
unfoldable pub settle_connect : ConnectionProfile → Answer → Manager × PgState → Manager × PgState
settle_connect p (body success version message) (s, st) =
    if success
    then (
      record s {
        connecting = false;
        active_profile = some (record p { id = text_or (some p.id) "current" });
      },
      store_connected p version st,
    )
    else (record s { connecting = false; error = text_or message "Connection failed" }, st)
settle_connect p (api_error status message) (s, st) = (
  record s {
    connecting = false;
    error = "Backend rejected connection (HTTP " ++ₛ show status ++ₛ "): " ++ₛ message;
  },
  st,
)
settle_connect p (other_error message) (s, st) = (
  record s {
    connecting = false;
    error = "Cannot connect to " ++ₛ p.host ++ₛ ":" ++ₛ show p.port ++ₛ ": " ++ₛ message;
  },
  st,
)

-- `activateNode` of frontend/src/components/workspace/ClusterHomeView.tsx, with what the backend says.
unfoldable pub activate_node :
    (id : String) → (success : Bool) → (version data_dir : Option String) → PgState → PgState
unfolding apply
activate_node id success version data_dir s =
    if success
    then apply (set_data_dir (text_or data_dir "")) (
        apply (set_version (text_or version ""))
          (apply (set_connected true) (apply (set_active_node_id (some id)) s)))
    else s
