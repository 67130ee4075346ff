-- ===== src/Logging/Fields.antt =====
-- Which fields of a record `JsonFormatter.format` of src/feishu_dify_gateway/json_logging.py lets
-- through.
use feishu_dify_gateway.Base.{
  ◌≡◌, refl, ap, ◌∙◌, inl, inr, Bool, false, ◌||◌, Option, none, some, List, [], ◌∷◌, arith,
  if◌then◌else◌, Bool-cases, or_else,
}
use feishu_dify_gateway.Text.{Text, same, same_iff}
use feishu_dify_gateway.Logging.{
  LogRecord, Payload, safe_record_fields, set, lookup, set_if_there, set_fields, first_fields,
  format,
}

-- `name in names`
unfoldable pub is_in : Text → List Text → Bool
is_in name [] = false
is_in name (n ∷ names) = same n name || is_in name names

lookup-set :
    (key name value : Text) (d : Payload)
    → lookup key (set name value d) ≡ (if same name key then some value else lookup key d)
unfolding lookup set
lookup-set key name value [] = ground arith
lookup-set key name value ((k, v) ∷ d) =
    ground (arith, lookup-set key name value d, same_iff k name, same_iff k key, same_iff name key)

lookup-set_if_there :
    (key name : Text) (o : Option Text) (d : Payload)
    → lookup key (set_if_there name o d)
      ≡ (if same name key then or_else o (lookup key d) else lookup key d)
lookup-set_if_there key name none d = ground arith
lookup-set_if_there key name (some value) d = ground (arith, lookup-set key name value d)

-- What a field of the dict is after the loop.
abbrev pub shown : (attribute : Text → Option Text) → Bool → Text → Option Text → Option Text
shown attribute is_listed key before = if is_listed then or_else (attribute key) before else before

or_else_twice : (o l : Option Text) → or_else o (or_else o l) ≡ or_else o l
or_else_twice none l = refl
or_else_twice (some t) l = refl

-- One more name of the set.
shown_step :
    (attribute : Text → Option Text) (name key : Text) (later : Bool) (before : Option Text)
    → shown attribute later key (if same name key then or_else (attribute name) before else before)
      ≡ shown attribute (same name key || later) key before
shown_step attribute name key later before = elim (Bool-cases (same name key)) [
  | inl hit ↦
      rw (hit, (same_iff name key).0 hit)
        (elim (Bool-cases later) [
          | inl again ↦ rw again (or_else_twice (attribute key) before)
          | inr last ↦ rw last refl
        ])
  | inr miss ↦ rw miss refl
]

lookup-set_fields :
    (attribute : Text → Option Text) (order : List Text) (key : Text) (d : Payload)
    → lookup key (set_fields attribute order d)
      ≡ shown attribute (is_in key order) key (lookup key d)
unfolding set_fields is_in
lookup-set_fields attribute [] key d = refl
lookup-set_fields attribute (name ∷ order) key d =
    lookup-set_fields attribute order key (set_if_there name (attribute name) d)
    ∙ ap (shown attribute (is_in key order) key) (lookup-set_if_there key name (attribute name) d)
    ∙ shown_step attribute name key (is_in key order) (lookup key d)

-- Whatever the order in which the set of safe fields is walked, a field that is not one of them has the
-- value that the formatter itself gives it (the time, the level, the logger or the message), or is not
-- there, whatever the record holds under its name; a safe field has the record's value if the record
-- has one.
pub lookup-format :
    (lower : Text → Text) (order : List Text) (timestamp key : Text) (r : LogRecord)
    → ((name : Text) → is_in name order ≡ is_in name safe_record_fields)
    → lookup key (format lower order timestamp r)
      ≡ shown r.attribute
          (is_in key safe_record_fields)
          key
          (lookup key (first_fields lower timestamp r))
unfolding format
lookup-format lower order timestamp key r walked =
    lookup-set_fields r.attribute order key (first_fields lower timestamp r)
    ∙ ap (λ b. shown r.attribute b key (lookup key (first_fields lower timestamp r))) (walked key)
