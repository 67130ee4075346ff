-- ===== src/Tests/Logging.antt =====
-- A record that src/feishu_dify_gateway/json_logging.py writes.
use feishu_dify_gateway.Base.{◌≡◌, refl, some}
use feishu_dify_gateway.Text.{codes}
use feishu_dify_gateway.Logging.{LogRecord, safe_record_fields, lookup, first_fields, format}
use feishu_dify_gateway.Logging.Fields.{is_in, shown, lookup-format}

-- A record with a text under every name, a message body among them.
abbrev leaky : LogRecord
leaky = record {
  levelname = codes "INFO";
  name = codes "gateway";
  message = codes "request completed";
  attribute = λ name. some (codes "private");
}

lookup-format_example :
    lookup (codes "body") (format (λ t. t) safe_record_fields (codes "now") leaky)
    ≡ shown leaky.attribute
        (is_in (codes "body") safe_record_fields)
        (codes "body")
        (lookup (codes "body") (first_fields (λ t. t) (codes "now") leaky))
lookup-format_example =
    lookup-format (λ t. t) safe_record_fields (codes "now") (codes "body") leaky (λ name. refl)
