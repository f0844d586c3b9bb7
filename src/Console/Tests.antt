-- ===== src/Console/Tests.antt =====
-- Tests of the SQL console.
use learn_pg.Prelude.{◌≡◌, refl, true, some, Option, [], ◌∷◌}
use learn_pg.Prelude.Map.{get}
use learn_pg.Console.{
  Console, replied, settle_execute, normalize_response, result_text, row_lines, join_tabs,
}

abbrev console : Console
console = record { sql = "SELECT 1;"; output = ""; loading = true }

-- A column that a row has not is blank.
table_shown :
    (settle_execute
      (replied (record {
        success = true;
        error = Option.none;
        result = some (record {
          columns = some ("a" ∷ "b" ∷ []);
          rows = some ((("a", "1") ∷ []) ∷ []);
          command_tag = some "SELECT 1";
        });
      }))
      console).output
    ≡ "a\tb\n1\t\n(SELECT 1)\n"
unfolding settle_execute normalize_response result_text row_lines join_tabs get
table_shown = refl
