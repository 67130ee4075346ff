-- ===== src/Service/Split/Chunks.antt =====
-- `split_text` of src/feishu_dify_gateway/service.py ends, cuts within the limit and loses nothing
-- but whitespace.
use feishu_dify_gateway.Base.{
  ℕ, zero, suc, ◌≤◌, ◌<◌, ◌≡◌, refl, sym, ap, ◌∙◌, ◌↔◌, inl, inr, true, false, Option, none, some,
  List, [], ◌∷◌, ◌++◌, append-nil, arith, ltb, if◌then◌else◌, Bool-cases, Option-cases, option_map,
  All, length, take, drop, take-append-drop, length-take-le, length-drop,
}
use feishu_dify_gateway.Text.{Text, is_space, lstrip, rstrip, strip, is_blank}
use feishu_dify_gateway.Text.Strip.{
  IsStripped, lstrip_head, lstrip_idem, rstrip_solid, rstrip_idem, lstrip-rstrip, rstrip-drop,
  rstrip-lstrip, length-lstrip-le, length-rstrip-le, squeeze, squeeze-append, squeeze-lstrip,
  squeeze-rstrip, squeeze-strip, strip-IsStripped, lstrip_solid,
}
use feishu_dify_gateway.Service.Split.{split_at, rfind, cut_at, split_loop, max_index, split_text}

rfind-lt-length : (c : ℕ) (s : Text) (i : ℕ) → rfind c s ≡ some i → i < length s
unfolding rfind
rfind-lt-length c [] i e = cc
rfind-lt-length c (x ∷ s) i e = elim (Option-cases (rfind c s)) [
  | inl miss ↦ ground arith
  | inr (j, hit) ↦ ground (arith, rfind-lt-length c s j hit)
]

-- A text that starts with no whitespace has no whitespace at place 0.
rfind-pos :
    (c x : ℕ) (s : Text) (i : ℕ)
    → is_space c ≡ true
    → is_space x ≡ false
    → rfind c (x ∷ s) ≡ some i
    → 0 < i
unfolding rfind
rfind-pos c x s i space solid e = ground arith

cut_at_bounds :
    (limit : ℕ) (a b : Option ℕ)
    → 0 < limit
    → ((i : ℕ) → a ≡ some i → (0 < i) × (i ≤ limit))
    → ((i : ℕ) → b ≡ some i → (0 < i) × (i ≤ limit))
    → (0 < cut_at limit (max_index a b)) × (cut_at limit (max_index a b) ≤ limit)
cut_at_bounds limit none none pos ha hb = (pos, omega arith)
cut_at_bounds limit none (some j) pos ha hb = ground (arith, hb j refl)
cut_at_bounds limit (some i) none pos ha hb = ground (arith, ha i refl)
cut_at_bounds limit (some i) (some j) pos ha hb = ground (arith, ha i refl, hb j refl)

split_at_bounds :
    (limit x : ℕ) (s : Text)
    → 0 < limit
    → is_space x ≡ false
    → (0 < split_at limit (x ∷ s)) × (split_at limit (x ∷ s) ≤ limit)
unfolding split_at
split_at_bounds zero x s pos solid = elim pos [ ]
split_at_bounds (suc l) x s pos solid =
    cut_at_bounds (suc l) (rfind 10 (x ∷ take l s)) (rfind 32 (x ∷ take l s)) pos
      (λ i e. inside 10 i (unfold is_space in refl) e)
      (λ i e. inside 32 i (unfold is_space in refl) e)
  where
    inside : (c i : ℕ) → is_space c ≡ true → rfind c (x ∷ take l s) ≡ some i → (0 < i) × (i ≤ suc l)
    inside c i space e = (
      rfind-pos c x (take l s) i space solid e,
      omega (arith, rfind-lt-length c (x ∷ take l s) i e, length-take-le l s),
    )

-- The chunks, one after the other.
abbrev pub joined : List Text → Text
joined [] = []
joined (c ∷ cs) = c ++ joined cs

-- A chunk that can be sent: not empty, within the limit, with no whitespace at its ends.
pub record IsChunk (limit : ℕ) (c : Text) : Type 0 where
  pub filled : 0 < length c
  pub fits : length c ≤ limit
  pub stripped : IsStripped c

-- The cut-off piece of a text that starts with no whitespace.
rstrip-take-IsChunk :
    (limit n x : ℕ) (s : Text)
    → 0 < n
    → n ≤ limit
    → is_space x ≡ false
    → IsChunk limit (rstrip (take n (x ∷ s)))
rstrip-take-IsChunk limit zero x s pos le solid = elim pos [ ]
rstrip-take-IsChunk limit (suc n) x s pos le solid = record {
  filled = rw (rstrip_solid x (take n s) solid) (omega arith);
  fits = omega (arith, length-rstrip-le (x ∷ take n s), length-take-le n s);
  stripped = record {
    left = lstrip-rstrip (x ∷ take n s) (lstrip_solid x (take n s) solid);
    right = rstrip_idem (x ∷ take n s);
  };
}

lstrip-drop-IsStripped : (n : ℕ) (s : Text) → IsStripped s → IsStripped (lstrip (drop n s))
lstrip-drop-IsStripped n s h = record {
  left = lstrip_idem (drop n s);
  right = rstrip-lstrip (drop n s) (rstrip-drop n s h.right);
}

squeeze-cut :
    (n : ℕ) (s : Text) → squeeze (rstrip (take n s)) ++ squeeze (lstrip (drop n s)) ≡ squeeze s
squeeze-cut n s =
    rw
      (squeeze-rstrip (take n s), squeeze-lstrip (drop n s), ← squeeze-append (take n s) (drop n s))
      (ap squeeze (take-append-drop n s))

-- What the loop returns for `remaining`: chunks that can be sent, which hold all of it but
-- whitespace.
abbrev pub Splits : ℕ → Text → Option (List Text) → Type 0
Splits limit remaining result =
    (chunks : List Text) × (result ≡ some chunks)
    × All (IsChunk limit) chunks
    × (squeeze (joined chunks) ≡ squeeze remaining)

Splits-cut :
    (limit n : ℕ) (s : Text) (rest : Option (List Text))
    → IsChunk limit (rstrip (take n s))
    → Splits limit (lstrip (drop n s)) rest
    → Splits limit s (option_map (λ chunks. rstrip (take n s) ∷ chunks) rest)
Splits-cut limit n s rest chunk (chunks, returned, good, kept) = (
  rstrip (take n s) ∷ chunks,
  ap (option_map (λ cs. rstrip (take n s) ∷ cs)) returned,
  (chunk, good),
  squeeze-append (rstrip (take n s)) (joined chunks)
      ∙ ap (λ t. squeeze (rstrip (take n s)) ++ t) kept
      ∙ squeeze-cut n s,
)

split_loop-Splits :
    (fuel limit : ℕ) (s : Text)
    → 0 < limit
    → IsStripped s
    → length s < fuel
    → Splits limit s (split_loop fuel limit s)
unfolding split_loop
split_loop-Splits zero limit s pos h enough = elim enough [ ]
split_loop-Splits (suc fuel) limit [] pos h enough = ([], ground arith, tt, refl)
split_loop-Splits (suc fuel) limit (x ∷ s) pos h enough =
    let solid = lstrip_head x s h.left in
    let n = split_at limit (x ∷ s) in
    let bounds = split_at_bounds limit x s pos solid in
    let rest = lstrip (drop n (x ∷ s)) in
    elim (Bool-cases (ltb limit (suc (length s)))) [
      | inl long ↦ rw long (
          Splits-cut limit n (x ∷ s) _ (rstrip-take-IsChunk limit n x s bounds.0 bounds.1 solid) (
            split_loop-Splits fuel limit rest pos (lstrip-drop-IsStripped n (x ∷ s) h) (
              omega (
                arith,
                bounds.0,
                length-lstrip-le (drop n (x ∷ s)),
                length-drop n (x ∷ s),
                enough,
              ))))
      | inr short ↦ rw short (
        (x ∷ s) ∷ [],
        refl,
        (record { filled = omega arith; fits = ground arith; stripped = h }, tt),
        ap squeeze (append-nil (x ∷ s)),
      )
    ]

filled_squeeze :
    (x : ℕ) (t : Text) (chunks : List Text)
    → is_space x ≡ false
    → squeeze (joined chunks) ≡ squeeze (x ∷ t)
    → some chunks ≡ some []
    → ⊥
filled_squeeze x t [] solid kept e = cc (rw solid at kept)
filled_squeeze x t (c ∷ cs) solid kept e = cc

-- For every positive limit `split_text` returns, and each chunk is not empty, is at most `limit`
-- characters long and has no whitespace at its ends; put together the chunks hold the text, less
-- whitespace.
pub split_text-Splits :
    (text : Text) (limit : ℕ) → 0 < limit → Splits limit text (split_text text limit)
unfolding split_text
split_text-Splits text limit pos = go (strip text) refl (strip-IsStripped text)
  where
    go :
        (t : Text)
        → strip text ≡ t
        → IsStripped t
        → Splits limit text (if is_blank t then some [] else split_loop (suc (length t)) limit t)
    go [] e h = ([], refl, tt, ap squeeze (sym e) ∙ squeeze-strip text)
    go (x ∷ t) e h =
        let (chunks, returned, good, kept) =
          split_loop-Splits (suc (length (x ∷ t))) limit (x ∷ t) pos h (omega arith) in
        (chunks, returned, good, kept ∙ ap squeeze (sym e) ∙ squeeze-strip text)

-- For a positive limit `split_text` returns no chunk exactly where the text is blank.
pub split_text-nil :
    (text : Text) (limit : ℕ) → 0 < limit → (split_text text limit ≡ some []) ↔ (strip text ≡ [])
unfolding split_text
split_text-nil text limit pos = go (strip text) (strip-IsStripped text)
  where
    go :
        (t : Text)
        → IsStripped t
        → ((if is_blank t then some [] else split_loop (suc (length t)) limit t) ≡ some [])
          ↔ (t ≡ [])
    go [] h = (λ _. refl, λ _. refl)
    go (x ∷ t) h =
        let (chunks, returned, good, kept) =
          split_loop-Splits (suc (length (x ∷ t))) limit (x ∷ t) pos h (omega arith) in
        (
          λ r. absurd (filled_squeeze x t chunks (lstrip_head x t h.left) kept (sym returned ∙ r)),
          λ r. cc,
        )
