-- ===== src/Logging.antt =====
-- `JsonFormatter.format` of src/feishu_dify_gateway/json_logging.py, as far as the dict that it writes
-- as JSON. A value of the dict is its JSON text.
pub mod Fields
use feishu_dify_gateway.Base.{Option, none, some, List, [], ◌∷◌, if◌then◌else◌}
use feishu_dify_gateway.Text.{Text, codes, same}

-- SAFE_RECORD_FIELDS
abbrev pub safe_record_fields : List Text
safe_record_fields =
    codes "event"
    ∷ codes "request_id"
    ∷ codes "route"
    ∷ codes "method"
    ∷ codes "status_class"
    ∷ codes "source"
    ∷ codes "result"
    ∷ codes "attempt"
    ∷ codes "error_code"
    ∷ codes "duration_ms"
    ∷ []

-- `attribute name` is `getattr(record, name)`, where the record has it; `message` is
-- `record.getMessage()`.
pub record LogRecord : Type 0 where
  pub levelname : Text
  pub name : Text
  pub message : Text
  pub attribute : Text → Option Text

-- A dict, in the order of its keys.
abbrev pub Payload : Type 0
Payload = List (Text × Text)

-- `payload[key] = value`
unfoldable pub set : (key value : Text) → Payload → Payload
set key value [] = (key, value) ∷ []
set key value ((k, v) ∷ rest) =
    let later = set key value rest in if same k key then (k, value) ∷ rest else (k, v) ∷ later

-- `payload.get(key)`
unfoldable pub lookup : (key : Text) → Payload → Option Text
lookup key [] = none
lookup key ((k, v) ∷ rest) = if same k key then some v else lookup key rest

-- `if hasattr(record, name): payload[name] = getattr(record, name)`
abbrev pub set_if_there : Text → Option Text → Payload → Payload
set_if_there name none payload = payload
set_if_there name (some value) payload = set name value payload

-- The loop; `order` is the order in which the set is walked.
unfoldable pub set_fields : (attribute : Text → Option Text) (order : List Text) → Payload → Payload
set_fields attribute [] payload = payload
set_fields attribute (name ∷ order) payload =
    set_fields attribute order (set_if_there name (attribute name) payload)

abbrev pub first_fields : (lower : Text → Text) (timestamp : Text) → LogRecord → Payload
first_fields lower timestamp r =
    (codes "timestamp", timestamp)
    ∷ (codes "level", lower r.levelname)
    ∷ (codes "logger", r.name)
    ∷ (codes "message", r.message)
    ∷ []

unfoldable pub format :
    (lower : Text → Text) (order : List Text) (timestamp : Text) → LogRecord → Payload
unfolding set_fields
format lower order timestamp r = set_fields r.attribute order (first_fields lower timestamp r)
