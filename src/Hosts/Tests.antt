-- ===== src/Hosts/Tests.antt =====
-- Tests of the hosts' page.
use learn_pg.Prelude.{◌≡◌, refl, true, false, some, Option, [], ◌∷◌}
use learn_pg.Workspace.Templates.{trim_start, trim_end}
use learn_pg.Hosts.{
  WorkspaceHost, blank, Page, Answer, replied, start_edit, cancel_edit, show_form, host_body,
  settle_add, begin_load, settle_load, begin_add, import_scanned, hide_form,
}

abbrev host : WorkspaceHost
host = record {
  id = "h";
  name = "db";
  host = "10.0.0.7";
  port = 22;
  ssh_user = "root";
  ssh_key = some "KEY";
  created_at = 1;
}

abbrev page : Page
page = record {
  hosts = host ∷ [];
  loading = false;
  error = "";
  show_add = false;
  editing_id = Option.none;
  form = blank;
  form_submitting = false;
  scan_host = "";
  scan_result = Option.none;
  scanning = false;
}

-- The key of a host whose edit was cancelled is in the form for a new one.
key_shown : (host_body (show_form (cancel_edit (start_edit host page))).form).ssh_key ≡ some "KEY"
unfolding host_body show_form cancel_edit start_edit
key_shown = refl

-- A host is added, but the list cannot be loaded: the form is closed, and the page tells of the load.
added_unseen :
    (settle_add (replied true tt) Answer.threw (begin_add (start_edit host page))).error
    ≡ "加载主机列表失败"
unfolding settle_add begin_load settle_load begin_add start_edit trim_start trim_end
added_unseen = refl

-- A scanned host that is taken over into the form gets the key of the host that was edited before.
scanned_key :
    (host_body
      (import_scanned (record (hide_form (cancel_edit (start_edit host page))) {
        scan_result = some (record { host = "10.0.0.9"; port = 5_432; service = "postgresql" });
      })).form).ssh_key
    ≡ some "KEY"
unfolding host_body import_scanned hide_form cancel_edit start_edit
scanned_key = refl
