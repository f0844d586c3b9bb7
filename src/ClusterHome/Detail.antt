-- ===== src/ClusterHome/Detail.antt =====
-- `selectedEdgeDetail` and `pickChannel` of
-- frontend/src/components/workspace/ClusterHomeView.tsx. Letters are those of ASCII.
use learn_pg.Prelude.{
  ℕ, Bool, true, false, ◌||◌, ◌&&◌, Option, none, some, List, [], ◌∷◌, map, String, head?, find,
  get_or, if◌then◌else◌, ◌==◌, string_eq, nat_eq, leb,
}
use learn_pg.Prelude.Number.{codes}
use learn_pg.Api.Url.{lower}
use learn_pg.Workspace.Types.{physical, logical, Node, Cluster}
use learn_pg.Provision.Backend.{text_or}
use learn_pg.ClusterHome.{Channel, Subscription, NodeStatus, alert_threshold_bytes}
use learn_pg.ClusterHome.Edges.{split_key}

abbrev begins : List ℕ → List ℕ → Bool
begins [] cs = true
begins (p ∷ ps) [] = false
begins (p ∷ ps) (c ∷ cs) = (p == c) && begins ps cs

-- `text.includes(key)`
unfoldable pub contains : List ℕ → List ℕ → Bool
contains key [] = begins key []
contains key (c ∷ cs) = begins key (c ∷ cs) || contains key cs

unfoldable pub pick_channel : Option (List Channel) → String → Option Channel
unfolding contains
pick_channel none node_name = none
pick_channel (some channels) node_name =
    find (λ c. contains (map lower (codes node_name)) (map lower (codes c.name))) channels

pub record EdgeDetail : Type 0 where
  pub mode : String
  pub from : String
  pub to : String
  pub state : String
  pub sync_state : String
  pub lag_bytes : ℕ
  pub is_alert : Bool

abbrev channels_of : Option NodeStatus → Option (List Channel)
channels_of none = none
channels_of (some s) = s.physical_replication

abbrev first_subscription : Option NodeStatus → Option Subscription
first_subscription none = none
first_subscription (some s) = head? (get_or s.subscriptions [])

-- `x?.member || '-'`, and `x?.lag_bytes ?? 0`.
abbrev member_or : {A : Type 0} → (A → Option String) → Option A → String
member_or f none = "-"
member_or f (some x) = text_or (f x) "-"

abbrev lag_of : Option Channel → ℕ
lag_of none = 0
lag_of (some c) = get_or c.lag_bytes 0

abbrev is_enabled : Option Subscription → Bool
is_enabled none = false
is_enabled (some s) = s.enabled

abbrev physical_detail : ℕ → Node → Node → Option Channel → EdgeDetail
physical_detail threshold from to ch = record {
  mode = "物理复制";
  from = from.name;
  to = to.name;
  state = member_or (λ c. some c.state) ch;
  sync_state = member_or (λ c. some c.sync_state) ch;
  lag_bytes = lag_of ch;
  is_alert = leb threshold (lag_of ch);
}

abbrev logical_detail : Node → Node → Option Subscription → EdgeDetail
logical_detail from to sub = record {
  mode = "逻辑复制";
  from = from.name;
  to = to.name;
  state = if is_enabled sub then "enabled" else "disabled";
  sync_state = member_or (λ s. s.worker_type) sub;
  lag_bytes = 0;
  is_alert = false;
}

unfoldable pub detail_between : Cluster → List NodeStatus → Node → Node → EdgeDetail
unfolding pick_channel alert_threshold_bytes
detail_between c statuses from to = elim c.replication_type [
  | physical ↦
      physical_detail (alert_threshold_bytes (some c)) from to
        (pick_channel (channels_of (find (λ s. s.id == from.id) statuses)) to.name)
  | logical ↦ logical_detail from to (first_subscription (find (λ s. s.id == to.id) statuses))
]

abbrev node_of : Option String → List Node → Option Node
node_of none ns = none
node_of (some id) ns = find (λ n. n.id == id) ns

abbrev detail_of : Cluster → List NodeStatus → Option Node → Option Node → Option EdgeDetail
detail_of c statuses (some from) (some to) = some (detail_between c statuses from to)
detail_of c statuses _ _ = none

-- `selectedEdgeDetail`, on the statuses of the cluster's nodes.
unfoldable pub selected_edge_detail : Option Cluster → List NodeStatus → String → Option EdgeDetail
unfolding detail_between
selected_edge_detail none statuses key = none
selected_edge_detail (some c) statuses key =
    if key == ""
    then none
    else detail_of c statuses (node_of (some (split_key key).0) c.nodes)
        (node_of (split_key key).1 c.nodes)
