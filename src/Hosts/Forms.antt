-- ===== src/Hosts/Forms.antt =====
-- What the form for a new host shows.
use learn_pg.Prelude.{◌≡◌, refl, true, Option, List}
use learn_pg.Hosts.{
  WorkspaceHost, blank, Page, Answer, went_well, settle_add, settle_update, start_edit, cancel_edit,
  show_form,
}

-- Where the edit of a host is cancelled and the form for a new host is opened, that form shows the host
-- that was edited, with its key; it would be sent as that host again.
pub form-show_form :
    (h : WorkspaceHost) (s : Page)
    → (show_form (cancel_edit (start_edit h s))).form ≡ (start_edit h s).form
unfolding show_form cancel_edit start_edit
form-show_form h s = refl

-- After a host has been added or updated the form is blank, also where the list cannot be loaded.
pub form-settle :
    (answer : Answer (Unit {0})) (load : Answer (Option (List WorkspaceHost))) (s : Page)
    → went_well answer ≡ true
    → ((settle_add answer load s).form ≡ blank) × ((settle_update answer load s).form ≡ blank)
unfolding settle_add settle_update
form-settle answer load s h = rw h (refl, refl)
