-- ===== src/Console.antt =====
-- frontend/src/components/sql/SQLConsole.tsx: the normalisation of an answer and the text that is shown. A
-- row maps column names to texts; the answer's casts hold.
mod Tests
use learn_pg.Prelude.{
  ℕ, Bool, true, false, Option, none, some, List, [], ◌∷◌, map, String, get_or, if◌then◌else◌, ◌==◌,
  string_eq, ◌++ₛ◌,
}
use learn_pg.Prelude.Map.{get}
use learn_pg.Workspace.Templates.{trim_start, trim_end}
use learn_pg.Provision.Backend.{text_or}
use learn_pg.LockGraph.{Row}

pub record RawResult : Type 0 where
  pub columns : Option (List String)
  pub rows : Option (List Row)
  pub command_tag : Option String

pub record RawResponse : Type 0 where
  pub success : Bool
  pub error : Option String
  pub result : Option RawResult

pub record ExecuteResult : Type 0 where
  pub columns : List String
  pub rows : List Row
  pub command_tag : String

pub record ExecuteResponse : Type 0 where
  pub success : Bool
  pub error : Option String
  pub result : Option ExecuteResult

abbrev normal_result : Option RawResult → Option ExecuteResult
normal_result none = none
normal_result (some r) = some (record {
  columns = get_or r.columns [];
  rows = get_or r.rows [];
  command_tag = get_or r.command_tag "";
})

-- Of the columns only the names are kept.
unfoldable pub normalize_response : RawResponse → ExecuteResponse
normalize_response raw = record {
  success = raw.success;
  error = raw.error;
  result = normal_result raw.result;
}

-- `texts.join('\t')`
unfoldable pub join_tabs : List String → String
join_tabs [] = ""
join_tabs (t ∷ []) = t
join_tabs (t ∷ u ∷ ts) = t ++ₛ "\t" ++ₛ join_tabs (u ∷ ts)

abbrev row_line : List String → Row → String
row_line columns row = join_tabs (map (λ c. text_or (get c row) "") columns) ++ₛ "\n"

unfoldable pub row_lines : List String → List Row → String
unfolding join_tabs
row_lines columns [] = ""
row_lines columns (r ∷ rs) = row_line columns r ++ₛ row_lines columns rs

abbrev header_line : List String → String
header_line [] = ""
header_line (c ∷ cs) = join_tabs (c ∷ cs) ++ₛ "\n"

abbrev tag_line : String → String
tag_line tag = if tag == "" then "" else "(" ++ₛ tag ++ₛ ")\n"

unfoldable pub result_text : ExecuteResult → String
unfolding row_lines join_tabs
result_text r =
    text_or (some (header_line r.columns ++ₛ row_lines r.columns r.rows ++ₛ tag_line r.command_tag))
      "(无结果)"

abbrev error_text : Option String → String
error_text e = "ERROR: " ++ₛ text_or e "未知错误" ++ₛ "\n"

abbrev shown_response : ExecuteResponse → String
shown_response r =
    if r.success
    then elim r.result [ none ↦ error_text r.error | some x ↦ result_text x ]
    else error_text r.error

pub data Answer : Type 0 where
  threw : (error : String) → Answer
  replied : RawResponse → Answer

pub record Console : Type 0 where
  pub sql : String
  pub output : String
  pub loading : Bool

-- `handleExecute` up to the request, which blank text does not make, and the rest of it.
unfoldable pub begin_execute : Console → Console
begin_execute s =
    if trim_end (trim_start s.sql) == "" then s else record s { loading = true; output = "" }

unfoldable pub settle_execute : Answer → Console → Console
unfolding normalize_response result_text
settle_execute (threw e) s = record s { output = "ERROR: 请求失败 - " ++ₛ e ++ₛ "\n"; loading = false }
settle_execute (replied raw) s = record s {
  output = shown_response (normalize_response raw);
  loading = false;
}
