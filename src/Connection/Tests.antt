-- ===== src/Connection/Tests.antt =====
-- Tests of the connection manager.
use learn_pg.Prelude.{◌≡◌, refl, true, false, some, Option, [], ◌∷◌, map, show}
use learn_pg.Connection.{
  ConnectionProfile, Manager, api_error, new_store, handle_save_profile, start_add, start_edit,
  begin_connect, settle_connect, upsert, activate_node, apply,
}

abbrev profile : ConnectionProfile
profile = record {
  id = "a";
  name = "prod";
  host = "db";
  port = 5_433;
  user = "u";
  password = "";
  database = "d";
}

abbrev manager : Manager
manager = record {
  profiles = profile ∷ [];
  active_profile = Option.none;
  editing_profile = Option.none;
  is_editing = false;
  connecting = false;
  error = "";
}

-- A draft without a name is not saved, and an edited profile takes the place of the old one.
profiles_saved :
    (map (λ p. p.id) (handle_save_profile "b" (start_add new_store.config manager)).profiles
      ≡ "a" ∷ [])
    × ((handle_save_profile "b" (start_edit (record profile { host = "replica" }) manager)).profiles
        ≡ record profile { host = "replica" } ∷ [])
unfolding handle_save_profile start_add start_edit upsert
profiles_saved = (refl, refl)

refused_by_backend :
    (settle_connect profile
      (api_error 502 "Bad Gateway")
      (begin_connect manager, new_store)).0.error
    ≡ "Backend rejected connection (HTTP 502): Bad Gateway"
unfolding settle_connect show
refused_by_backend = refl

-- A node that is activated leaves the store's connection settings as they were.
settings_kept : (activate_node "n" true (some "16") Option.none new_store).config ≡ new_store.config
unfolding activate_node apply
settings_kept = refl
