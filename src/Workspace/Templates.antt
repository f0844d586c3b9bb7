-- ===== src/Workspace/Templates.antt =====
-- frontend/src/types/template.ts: the projects that the templates make. `ids` are the results of
-- `genId`, in the order of the calls; names have no `$`, which a replacement would treat specially.
pub mod Shape
use Prim.Native.Char.{code}
use learn_pg.Prelude.{
  ℕ, zero, suc, ◌+◌, ◌-◌, ◌≡◌, refl, ap, ap₂, ◌∙◌, Bool, true, false, ◌&&◌, not, Option, none, some,
  List, [], ◌∷◌, ◌++◌, map, String, length, if◌then◌else◌, ◌==◌, string_eq, nat_eq, ◌++ₛ◌, All,
  All-append, arith, min, sum,
}
use learn_pg.Prelude.Number.{codes, is_space}
use learn_pg.Workspace.Types.{
  ClusterType, physical, logical, Node, Cluster, ComponentType, collector, analyzer, storage,
  Component, Project, Settings,
}
use learn_pg.Workspace.Edits.{make_node, type_of_role}

pub data Template : Type 0 where
  single physical_replication logical_replication : Template

pub record Params : Type 0 where
  pub node_count : ℕ
  pub alert_threshold_sec : ℕ
  pub create_collector : Bool
  pub create_analyzer : Bool
  pub create_storage : Bool
  pub component_name_pattern : String

abbrev pub is_prefix : String → String → Bool
is_prefix String.[] s = true
is_prefix (String.◌∷◌ c p) String.[] = false
is_prefix (String.◌∷◌ c p) (String.◌∷◌ d s) = (code c == code d) && is_prefix p s

-- `s.replace(/pattern/g, by)` for a pattern that is not empty; `skip` characters of the last match are
-- still to be passed over.
unfoldable pub replace_all : (pattern by : String) → (skip : ℕ) → String → String
replace_all pattern by skip String.[] = ""
replace_all pattern by (suc skip) (String.◌∷◌ c s) = replace_all pattern by skip s
replace_all pattern by zero (String.◌∷◌ c s) =
    let after = replace_all pattern by (length (codes pattern) - 1) s in
    let next = replace_all pattern by 0 s in
    if is_prefix pattern (String.◌∷◌ c s) then by ++ₛ after else String.◌∷◌ c next

unfoldable pub trim_start : String → String
trim_start String.[] = ""
trim_start (String.◌∷◌ c s) =
    let rest = trim_start s in if is_space (code c) then rest else String.◌∷◌ c s

abbrev pub keep_character : Bool → String → String → String
keep_character space String.[] one = if space then "" else one
keep_character space (String.◌∷◌ d s) one = one ++ₛ String.◌∷◌ d s

unfoldable pub trim_end : String → String
trim_end String.[] = ""
trim_end (String.◌∷◌ c s) = keep_character (is_space (code c)) (trim_end s) (String.◌∷◌ c "")

abbrev pub type_name : ComponentType → String
type_name collector = "collector"
type_name analyzer = "analyzer"
type_name storage = "storage"
type_name ComponentType.custom = "custom"

unfoldable pub resolve_component_name : (pattern project : String) → ComponentType → String → String
unfolding replace_all trim_start trim_end
resolve_component_name pattern project type fallback =
    let p = trim_end (
      trim_start
        (replace_all "{type}" (type_name type) 0 (replace_all "{project}" project 0 pattern))) in
    if p == "" then fallback else p

abbrev is_logical : Template → Bool
is_logical logical_replication = true
is_logical _ = false

abbrev pub fallback_name : Template → ComponentType → String
fallback_name t collector = if is_logical t then "逻辑复制采集组件" else "物理复制采集组件"
fallback_name t analyzer = if is_logical t then "CDC 分析组件" else "复制分析组件"
fallback_name t storage = if is_logical t then "变更存储组件" else "归档存储组件"
fallback_name t ComponentType.custom = ""

-- One component, if it is wanted; the next id is the one after those in use.
unfoldable pub component_if :
    Bool
    → Template
    → String
    → String
    → Params
    → (ℕ → String)
    → ComponentType
    → List Component
    → List Component
unfolding resolve_component_name
component_if wanted t project cluster_id p ids type out =
    if wanted
    then out
      ++ record {
        id = ids (length out);
        name = resolve_component_name p.component_name_pattern project type (fallback_name t type);
        component_type = type;
        linked_cluster_ids = cluster_id ∷ [];
      }
        ∷ []
    else out

unfoldable pub build_components :
    Template → String → String → Params → (ℕ → String) → List Component
unfolding component_if
build_components t project cluster_id p ids =
    component_if p.create_storage t project cluster_id p ids storage (
      component_if p.create_analyzer t project cluster_id p ids analyzer
        (component_if p.create_collector t project cluster_id p ids collector []))

abbrev pub leader_role : Template → String
leader_role single = "primary"
leader_role physical_replication = "primary"
leader_role logical_replication = "publisher"

abbrev pub follower_role : Template → String
follower_role single = "standby"
follower_role physical_replication = "standby"
follower_role logical_replication = "subscriber"

abbrev pub role_at : Template → ℕ → String
role_at t i = if i == 0 then leader_role t else follower_role t

-- `Array.from({ length }, (_, i) => makeNode(i + 1, ...))`, from index `i` on.
unfoldable pub make_nodes : Settings → Template → (ℕ → String) → (count i : ℕ) → List Node
make_nodes cfg t ids zero i = []
make_nodes cfg t ids (suc count) i =
    make_node cfg (ids i) (i + 1) (role_at t i) ∷ make_nodes cfg t ids count (i + 1)

abbrev pub count_of : Template → Params → ℕ
count_of single p = 1
count_of _ p = p.node_count

abbrev pub cluster_name : Template → String
cluster_name single = "单机集群"
cluster_name physical_replication = "主从集群"
cluster_name logical_replication = "发布订阅集群"

abbrev pub replication_of : Template → ClusterType
replication_of logical_replication = logical
replication_of _ = physical

-- `buildProject` of the template.
unfoldable pub build_project : Settings → Template → (ℕ → String) → String → Params → Project
unfolding make_nodes build_components
build_project cfg t ids name p =
    let n = count_of t p in
    record {
      id = ids (n + 1);
      name = name;
      clusters =
          record {
            id = ids n;
            name = cluster_name t;
            replication_type = replication_of t;
            alert_threshold_sec = some p.alert_threshold_sec;
            nodes = make_nodes cfg t ids n 0;
          }
          ∷ [];
      components = build_components t name (ids n) p (λ i. ids (n + 2 + i));
    }
