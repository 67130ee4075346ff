-- ===== src/Prometheus/Bounds.antt =====
-- What `active_alerts` of src/feishu_dify_gateway/prometheus.py can return.
use feishu_dify_gateway.Base.{
  ℕ, zero, suc, ◌≤◌, ◌≡◌, refl, ◌≢◌, Option, none, some, List, [], ◌∷◌, arith, All, length,
  length-take-le,
}
use feishu_dify_gateway.Text.{Text, codes}
use feishu_dify_gateway.Prometheus.{
  Json, Items, no_items, item, first_items, alert_of, results, listed, active_alerts, named_alert,
  as_object, as_text, get, ◌>>=◌, keep, shown_items,
}

-- An alert that may stand in a reply.
abbrev pub IsShown : Text × Text → Type 0
IsShown (name, state) = (name ≢ []) × (length name ≤ 128) × (length state ≤ 32)

-- A chain that ends in a value has passed its first step.
bind-some :
    {A B : Type 0} (o : Option A) (f : A → Option B) (b : B)
    → o >>= f ≡ some b
    → (a : A) × (f a ≡ some b)
bind-some none f b e = cc
bind-some (some a) f b e = (a, e)

named_alert-IsShown :
    (name state : Text) (a : Text × Text) → named_alert name state ≡ some a → IsShown a
named_alert-IsShown [] state a e = cc
named_alert-IsShown (c ∷ name) state (n, st) e = (
  λ blank. ground (arith, e, blank),
  ground (arith, e, length-take-le 128 (c ∷ name)),
  ground (arith, e, length-take-le 32 state),
)

alert_of-IsShown : (v : Json) (a : Text × Text) → alert_of v ≡ some a → IsShown a
unfolding alert_of
alert_of-IsShown v a e =
    let (d, e1) = bind-some (as_object (some v)) _ a e in
    let (labels, e2) = bind-some (as_object (get (codes "labels") d)) _ a e1 in
    let (state, e3) = bind-some (as_text (get (codes "state") d)) _ a e2 in
    let (name, e4) = bind-some (as_text (get (codes "alertname") labels)) _ a e3 in
    named_alert-IsShown name state a e4

length-first_items : (n : ℕ) (items : Items) → length (first_items n items) ≤ n
unfolding first_items
length-first_items zero items = omega arith
length-first_items (suc n) no_items = omega arith
length-first_items (suc n) (item v items) = omega (arith, length-first_items n items)

length-keep :
    (o : Option (Text × Text)) (shown : List (Text × Text))
    → length (keep o shown) ≤ suc (length shown)
length-keep none shown = omega arith
length-keep (some a) shown = omega arith

length-results : (vs : List Json) → length (results vs) ≤ length vs
unfolding results
length-results [] = omega arith
length-results (v ∷ vs) = omega (arith, length-results vs, length-keep (alert_of v) (results vs))

keep-IsShown :
    (o : Option (Text × Text)) (shown : List (Text × Text))
    → ((a : Text × Text) → o ≡ some a → IsShown a)
    → All IsShown shown
    → All IsShown (keep o shown)
keep-IsShown none shown one rest = rest
keep-IsShown (some a) shown one rest = (one a refl, rest)

results-IsShown : (vs : List Json) → All IsShown (results vs)
unfolding results
results-IsShown [] = tt
results-IsShown (v ∷ vs) =
    keep-IsShown (alert_of v) (results vs) (alert_of-IsShown v) (results-IsShown vs)

shown_items-IsShown :
    (o : Option Items) → (length (shown_items o) ≤ 20) × All IsShown (shown_items o)
shown_items-IsShown none = (omega arith, tt)
shown_items-IsShown (some items) = (
  omega (arith, length-results (first_items 20 items), length-first_items 20 items),
  results-IsShown (first_items 20 items),
)

-- Whatever the server answers, `active_alerts` returns at most 20 alerts, each with a name that is
-- not empty and at most 128 characters long and a state of at most 32.
pub active_alerts-IsShown :
    (payload : Option Json)
    → (length (active_alerts payload) ≤ 20) × All IsShown (active_alerts payload)
unfolding active_alerts
active_alerts-IsShown none = (omega arith, tt)
active_alerts-IsShown (some payload) = shown_items-IsShown (listed payload)
