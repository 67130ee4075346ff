-- ===== src/Service/ControlPlane.antt =====
-- `ControlPlaneClient.request` of src/feishu_dify_gateway/service.py, from the answer of the server on.
-- The other files of the service take what it returns as a parameter.
use feishu_dify_gateway.Base.{
  ℕ, Bool, true, false, not, Option, none, some, [], ◌++◌, leb, if◌then◌else◌, take,
}
use feishu_dify_gateway.Text.{Text, codes, is_blank}
use feishu_dify_gateway.Text.Decimal.{decimal}
use feishu_dify_gateway.Prometheus.{
  Json, Members, null, boolean, number, text, array, object, no_items, item, no_members, member,
  get,
}

-- How a request ends: with an httpx.HTTPError and its text, or with a response: its status, its text
-- and its JSON value, if it has one.
pub data Response : Type 0 where
  http_error : Text → Response
  responded : (status_code : ℕ) (body : Text) (json : Option Json) → Response

-- Python's `str` of a value that is no text, and whether a number literal denotes zero.
pub record Python : Type 0 where
  pub str : Json → Text
  pub is_zero : Text → Bool

abbrev pub is_truthy : Python → Json → Bool
is_truthy py null = false
is_truthy py (boolean b) = b
is_truthy py (number n) = not (py.is_zero n)
is_truthy py (text t) = not (is_blank t)
is_truthy py (array no_items) = false
is_truthy py (array (item v rest)) = true
is_truthy py (object no_members) = false
is_truthy py (object (member k v rest)) = true

-- `f"{value}"`
abbrev pub formatted : Python → Json → Text
formatted py (text t) = t
formatted py null = py.str null
formatted py (boolean b) = py.str (boolean b)
formatted py (number n) = py.str (number n)
formatted py (array items) = py.str (array items)
formatted py (object d) = py.str (object d)

-- `value is False`
abbrev pub is_false : Option Json → Bool
is_false (some (boolean false)) = true
is_false _ = false

-- `data.get('message', '')`
abbrev pub message_or_blank : Option Json → Json
message_or_blank none = text []
message_or_blank (some v) = v

abbrev pub object_reply : Python → Members → Text
object_reply py d =
    let message = message_or_blank (get (codes "message") d) in
    if is_false (get (codes "accepted") d)
    then codes "控制平面拒绝：" ++ formatted py message
    else if is_truthy py message
    then codes "控制平面：" ++ formatted py message
    else take 1000 (py.str (object d))

-- The reply to a parsed body.
abbrev pub json_reply : Python → Json → Text
json_reply py (object d) = object_reply py d
json_reply py null = take 1000 (formatted py null)
json_reply py (boolean b) = take 1000 (formatted py (boolean b))
json_reply py (number n) = take 1000 (formatted py (number n))
json_reply py (text t) = take 1000 t
json_reply py (array items) = take 1000 (formatted py (array items))

abbrev pub body_reply : Python → Text → Option Json → Text
body_reply py body none = take 1000 body
body_reply py body (some v) = json_reply py v

unfoldable pub request : Python → Response → Text
request py (http_error exc) = codes "控制平面不可达：" ++ exc
request py (responded status_code body json) =
    if leb 400 status_code
    then codes "控制平面错误 HTTP " ++ (decimal status_code ++ (codes ": " ++ take 500 body))
    else body_reply py body json
