-- ===== src/Hosts.antt =====
-- The handlers of frontend/src/components/workspace/HostManagementView.tsx, on the type of
-- frontend/src/types/host.ts. A handler is split at its first `await`: `begin_…` is what it does before,
-- `settle_…` what it does with the answers. Ports are not negative.
pub mod Forms
mod Tests
use learn_pg.Prelude.{
  ℕ, Bool, true, false, not, ◌&&◌, Option, none, some, List, [], ◌∷◌, String, head?, get_or,
  if◌then◌else◌, ◌==◌, string_eq,
}
use learn_pg.Workspace.Templates.{trim_start, trim_end}

pub record WorkspaceHost : Type 0 where
  pub id : String
  pub name : String
  pub host : String
  pub port : ℕ
  pub ssh_user : String
  pub ssh_key : Option String
  pub created_at : ℕ

pub record DiscoveryHost : Type 0 where
  pub host : String
  pub port : ℕ
  pub service : String

pub record Form : Type 0 where
  pub name : String
  pub host : String
  pub port : ℕ
  pub user : String
  pub key : String

abbrev pub blank : Form
blank = record { name = ""; host = ""; port = 22; user = "root"; key = "" }

pub record Page : Type 0 where
  pub hosts : List WorkspaceHost
  pub loading : Bool
  pub error : String
  pub show_add : Bool
  pub editing_id : Option String
  pub form : Form
  pub form_submitting : Bool
  pub scan_host : String
  pub scan_result : Option DiscoveryHost
  pub scanning : Bool

-- `fetch` or `res.json()` throws, or a body is read: whether it tells of a success, and its data.
pub data Answer {ℓ} (A : Type ℓ) : Type ℓ where
  threw : Answer A
  replied : (success : Bool) → A → Answer A

abbrev pub is_blank : String → Bool
is_blank s = trim_end (trim_start s) == ""

unfoldable pub begin_load : Page → Page
begin_load s = record s { loading = true; error = "" }

-- The list may be missing.
unfoldable pub settle_load : Answer (Option (List WorkspaceHost)) → Page → Page
settle_load threw s = record s { loading = false; error = "加载主机列表失败" }
settle_load (replied success hosts) s =
    if success
    then record s { loading = false; hosts = get_or hosts [] }
    else record s { loading = false; error = "加载主机列表失败" }

-- `await loadHosts()`, which catches what it throws itself.
abbrev pub load_hosts : Answer (Option (List WorkspaceHost)) → Page → Page
load_hosts answer s = settle_load answer (begin_load s)

abbrev pub went_well : {A : Type 0} → Answer A → Bool
went_well threw = false
went_well (replied success x) = success

abbrev pub is_ready : Page → Bool
is_ready s = not (is_blank s.form.name) && not (is_blank s.form.host)

-- `handleAddHost`, whose request is sent where the form is ready.
unfoldable pub begin_add : Page → Page
begin_add s = if is_ready s then record s { form_submitting = true } else s

unfoldable pub settle_add : Answer (Unit {0}) → Answer (Option (List WorkspaceHost)) → Page → Page
unfolding begin_load settle_load
settle_add answer load s =
    if went_well answer
    then record (load_hosts load s) { show_add = false; form = blank; form_submitting = false }
    else record s { error = "添加主机失败"; form_submitting = false }

unfoldable pub settle_delete :
    Answer (Unit {0}) → Answer (Option (List WorkspaceHost)) → Page → Page
unfolding begin_load settle_load
settle_delete answer load s =
    if went_well answer then load_hosts load s else record s { error = "删除主机失败" }

unfoldable pub settle_update :
    Answer (Unit {0}) → Answer (Option (List WorkspaceHost)) → Page → Page
unfolding begin_load settle_load
settle_update answer load s =
    if went_well answer
    then record (load_hosts load s) { editing_id = none; form = blank }
    else record s { error = "更新主机失败" }

-- What is sent of the form, by adding and by updating: `formUser.trim() || 'root'`, and the key if there
-- is one.
pub record HostBody : Type 0 where
  pub name : String
  pub host : String
  pub port : ℕ
  pub ssh_user : String
  pub ssh_key : Option String

abbrev trimmed : String → String
trimmed s = trim_end (trim_start s)

unfoldable pub host_body : Form → HostBody
host_body f = record {
  name = trimmed f.name;
  host = trimmed f.host;
  port = f.port;
  ssh_user = if trimmed f.user == "" then "root" else trimmed f.user;
  ssh_key = if f.key == "" then none else some f.key;
}

unfoldable pub start_edit : WorkspaceHost → Page → Page
start_edit h s = record s {
  editing_id = some h.id;
  form = record {
    name = h.name;
    host = h.host;
    port = h.port;
    user = h.ssh_user;
    key = get_or h.ssh_key "";
  };
}

-- The button that cancels an edit, and the one that opens the form for a new host.
unfoldable pub cancel_edit : Page → Page
cancel_edit s = record s { editing_id = none; error = "" }

unfoldable pub show_form : Page → Page
show_form s = record s { show_add = true; editing_id = none }

unfoldable pub begin_scan : Page → Page
begin_scan s = if is_blank s.scan_host then s else record s { scanning = true; scan_result = none }

unfoldable pub settle_scan : Answer (Option (List DiscoveryHost)) → Page → Page
settle_scan threw s = record s { error = "扫描主机失败"; scanning = false }
settle_scan (replied success instances) s =
    if success
    then record s { scan_result = head? (get_or instances []); scanning = false }
    else record s { error = "扫描主机失败"; scanning = false }

-- The button that takes the scanned host over into the form for a new host.
unfoldable pub import_scanned : Page → Page
import_scanned s = taken_over s.scan_result
  where
    taken_over : Option DiscoveryHost → Page
    taken_over none = s
    taken_over (some d) = record s {
      form = record s.form { host = d.host; port = d.port };
      show_add = true;
    }

-- The button that closes the form for a new host, and a click beside it.
unfoldable pub hide_form : Page → Page
hide_form s = record s { show_add = false }
