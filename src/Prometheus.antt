-- ===== src/Prometheus.antt =====
-- `PrometheusClient.active_alerts` of src/feishu_dify_gateway/prometheus.py, from the answer of the
-- server on.
pub mod Bounds
use feishu_dify_gateway.Base.{
  ℕ, zero, suc, Bool, Option, none, some, List, [], ◌∷◌, if◌then◌else◌, take, false, ◌==◌,
}
use feishu_dify_gateway.Partial.{◌>>=◌}
use feishu_dify_gateway.Text.{Text, codes, same, is_blank}

-- A JSON value as `response.json()` returns it. A number is its literal; the keys of an object are
-- unique, as in a dict.
mutual
  pub data Json : Type 0 where
    null : Json
    boolean : Bool → Json
    number text : Text → Json
    array : Items → Json
    object : Members → Json

  pub data Items : Type 0 where
    no_items : Items
    item : Json → Items → Items

  pub data Members : Type 0 where
    no_members : Members
    member : Text → Json → Members → Members

-- `d.get(key)`; `none` is a key that is not there.
unfoldable pub get : Text → Members → Option Json
get key no_members = none
get key (member k v d) = if same k key then some v else get key d

-- `isinstance(v, dict)`, `isinstance(v, list)` and `isinstance(v, str)`.
abbrev pub as_object : Option Json → Option Members
as_object (some (object d)) = some d
as_object _ = none

abbrev pub as_array : Option Json → Option Items
as_array (some (array items)) = some items
as_array _ = none

abbrev pub as_text : Option Json → Option Text
as_text (some (text t)) = some t
as_text _ = none

-- `items[:n]`
unfoldable pub first_items : ℕ → Items → List Json
first_items zero items = []
first_items (suc n) no_items = []
first_items (suc n) (item v items) = v ∷ first_items n items

-- The end of one round of the loop, for a name and a state of the right types.
abbrev pub named_alert : (name state : Text) → Option (Text × Text)
named_alert name state = if is_blank name then none else some (take 128 name, take 32 state)

-- One round of the loop; `none` is a `continue` or an alert that is left out.
unfoldable pub alert_of : Json → Option (Text × Text)
alert_of v = do
  d ← as_object (some v)
  labels ← as_object (get (codes "labels") d)
  state ← as_text (get (codes "state") d)
  name ← as_text (get (codes "alertname") labels)
  named_alert name state

-- `results.append`, unless the round left its item out.
abbrev pub keep : Option (Text × Text) → List (Text × Text) → List (Text × Text)
keep none shown = shown
keep (some a) shown = a ∷ shown

unfoldable pub results : List Json → List (Text × Text)
results [] = []
results (v ∷ vs) = keep (alert_of v) (results vs)

-- The list of alerts in a payload that reports success.
unfoldable pub listed : Json → Option Items
listed payload = do
  d ← as_object (some payload)
  status ← as_text (get (codes "status") d)
  data_object ← as_object (get (codes "data") d)
  items ← as_array (get (codes "alerts") data_object)
  if same status (codes "success") then some items else none

abbrev pub shown_items : Option Items → List (Text × Text)
shown_items none = []
shown_items (some items) = results (first_items 20 items)

-- `none` is a request that failed, an error status or a body that is no JSON.
unfoldable pub active_alerts : Option Json → List (Text × Text)
unfolding results listed
active_alerts none = []
active_alerts (some payload) = shown_items (listed payload)

-- `ready`, from the status of the answer; `none` is a request that failed.
unfoldable pub ready : Option ℕ → Bool
ready none = false
ready (some status_code) = status_code == 200
