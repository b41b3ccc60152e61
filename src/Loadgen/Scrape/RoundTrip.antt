-- ===== src/Loadgen/Scrape/RoundTrip.antt =====
-- The lines that metrics.go writes are read back by scrape.go.
use voice_flux_engine.Prelude.{
  ℕ, ◌-◌, ◌≡◌, ◌≢◌, refl, sym, subst, ap, ◌∙◌, ltb, ◌||◌, not, if◌then◌else◌, if-false, true, false,
  Bool-cases, Option, none, some, List, [], ◌∷◌, ◌++◌, append_assoc, length, length-append, take,
  drop, arith, inl, inr,
}
use voice_flux_engine.Prelude.Float.{Float64}
use voice_flux_engine.Prelude.Bytes.{
  bytes_eq, has_prefix, has_suffix, cut, cut_last-append, Without, place, place-append,
  prefix_split, Without-append, take-append, has_suffix-append,
}
use voice_flux_engine.Metrics.{line, le_label, bucket_word}
use voice_flux_engine.Loadgen.Scrape.{
  Snapshot, BucketKey, map_put, map_get_or, eq_float, bucket_open, bucket_close, plus_inf, hash,
  no_bucket, bucket, bucket_key, bound_of, on_cut, store_at, on_value, on_space, parse_line,
}

bucket_word-plain : Without b'{' bucket_word
bucket_word-plain = (
  (λ e. omega arith),
  (
    (λ e. omega arith),
    (
      (λ e. omega arith),
      ((λ e. omega arith), ((λ e. omega arith), ((λ e. omega arith), ((λ e. omega arith), tt)))),
    ),
  ),
)

-- the bytes of `bucket_open` from its brace on
abbrev tail_open : List ℕ
tail_open = b'l' ∷ b'e' ∷ b'=' ∷ b'"' ∷ []

-- The opening begins at no byte of a name before it: the first brace would be too early.
no_earlier :
    (x : ℕ) (xs rest : List ℕ)
    → Without b'{' (x ∷ xs)
    → has_prefix ((x ∷ xs) ++ (bucket_open ++ rest)) bucket_open ≡ false
no_earlier x xs rest w =
    elim (Bool-cases (has_prefix ((x ∷ xs) ++ (bucket_open ++ rest)) bucket_open)) [
      | inr f ↦ f
      | inl t ↦
          let s = (x ∷ xs) ++ (bucket_open ++ rest) in
          let split = prefix_split s bucket_open t in
          let early = place-append b'{' bucket_word (tail_open ++ drop 12 s) bucket_word-plain in
          let late =
            ap (place b'{') (sym (append_assoc (x ∷ xs) bucket_word (b'{' ∷ tail_open ++ rest)))
            ∙ place-append b'{' ((x ∷ xs) ++ bucket_word) (tail_open ++ rest)
                (Without-append b'{' (x ∷ xs) bucket_word w bucket_word-plain) in
          let l = length-append (x ∷ xs) bucket_word in
          let same : length ((x ∷ xs) ++ bucket_word) ≡ length bucket_word =
            sym late ∙ ap (place b'{') split ∙ early in
          absurd (omega arith)
    ]

cut-name :
    (name rest : List ℕ)
    → Without b'{' name
    → cut (name ++ (bucket_open ++ rest)) bucket_open ≡ some (name, rest)
cut-name [] rest w = refl
cut-name (x ∷ xs) rest w =
    let rec = cut-name xs rest w.1 in
    if-false _ _ (no_earlier x xs rest w)
    ∙ ap
        (λ o. elim o as (λ _. Option (List ℕ × List ℕ)) [
          | some (a, b) ↦ some (x ∷ a, b)
          | none ↦ none
        ])
        rec

-- a text without a brace is no key of a bucket
cut-plain : (s : List ℕ) → Without b'{' s → cut s bucket_open ≡ none
cut-plain [] w = refl
cut-plain (x ∷ s) w =
    let rec = cut-plain s w.1 in
    elim (Bool-cases (has_prefix (x ∷ s) bucket_open)) [
      | inr f ↦
          if-false _ _ f
          ∙ ap
              (λ o. elim o as (λ _. Option (List ℕ × List ℕ)) [
                | some (a, b) ↦ some (x ∷ a, b)
                | none ↦ none
              ])
              rec
      | inl t ↦
          let braced = subst (Without b'{') (prefix_split (x ∷ s) bucket_open t) w in
          absurd (braced.1.1.1.1.1.1.1.0 refl)
    ]

-- the key of a bucket, as the text has it
bucket_key_text :
    (name text : List ℕ)
    → (name ++ bucket_word) ++ (b'{' ∷ le_label text ++ b'}' ∷ [])
      ≡ name ++ (bucket_open ++ (text ++ bucket_close))
bucket_key_text name text =
    append_assoc name bucket_word (b'{' ∷ le_label text ++ b'}' ∷ [])
    ∙ ap (λ xs. name ++ (bucket_open ++ xs)) (append_assoc text (b'"' ∷ []) (b'}' ∷ []))

module _ (fl : Float64) (parse_float : List ℕ → Option fl.F) (format_float : fl.F → List ℕ)
    (reads : (v : fl.F) → parse_float (format_float v) ≡ some v)
    (plain : (v : fl.F) → Without b' ' (format_float v)) where
  open fl use {F, inf}

  -- what the key of a bucket stands for, by the text of its bound
  abbrev pub bound_text : List ℕ → List ℕ → BucketKey F
  bound_text name text =
      if bytes_eq text plus_inf
      then bucket name inf
      else bound_of fl parse_float name (parse_float text)

  bucket_key-text :
      (name text : List ℕ)
      → Without b'{' name
      → bucket_key fl parse_float (name ++ (bucket_open ++ (text ++ bucket_close)))
        ≡ bound_text name text
  unfolding bucket_key
  bucket_key-text name text w =
      let after = text ++ bucket_close in
      let key = name ++ (bucket_open ++ after) in
      let whole : (name ++ (bucket_open ++ text)) ++ bucket_close ≡ key =
        append_assoc name (bucket_open ++ text) bucket_close in
      let closed : not (has_suffix key bucket_close) ≡ false = ap not (
        subst (λ k. has_suffix k bucket_close ≡ true) whole
          (has_suffix-append (name ++ (bucket_open ++ text)) bucket_close)) in
      let l = length-append text bucket_close in
      let long : ltb (length after) 2 ≡ false = ground arith in
      let cutting : take (length after - 2) after ≡ text =
        ap (λ n. take n after) {x = length after - 2} {y = length text} (omega arith)
        ∙ take-append text bucket_close in
      ap (on_cut fl parse_float key) (cut-name name after w)
      ∙ if-false _ _ closed
      ∙ if-false _ _ long
      ∙ ap (bound_text name) cutting

  pub bound_text-finite :
      (name : List ℕ) (b : F)
      → bytes_eq (format_float b) plus_inf ≡ false
      → bound_text name (format_float b) ≡ bucket name b
  bound_text-finite name b finite =
      if-false _ _ finite ∙ ap (bound_of fl parse_float name) (reads b)

  bucket_key-plain : (key : List ℕ) → Without b'{' key → bucket_key fl parse_float key ≡ no_bucket
  unfolding bucket_key
  bucket_key-plain key w = ap (on_cut fl parse_float key) (cut-plain key w)

  read_line :
      (c : ℕ) (key : List ℕ) (v : F) (snap : Snapshot F)
      → c ≢ b'#'
      → parse_line fl parse_float snap ((c ∷ key) ++ (b' ' ∷ format_float v))
        ≡ store_at fl parse_float (bucket_key fl parse_float (c ∷ key)) (c ∷ key) v snap
  unfolding parse_line
  read_line c key v snap h =
      let sample : (false || has_prefix ((c ∷ key) ++ (b' ' ∷ format_float v)) hash) ≡ false =
        ground arith in
      if-false _ _ sample
      ∙ ap (λ o. on_space fl parse_float o snap)
          (cut_last-append b' ' (c ∷ key) (format_float v) (plain v))
      ∙ ap (λ o. on_value fl parse_float (c ∷ key) o snap) (reads v)

  -- the line of a bucket, whose bound is written as `text`
  pub parse_line-bucket :
      (c : ℕ) (name text : List ℕ) (b v : F) (snap : Snapshot F)
      → c ≢ b'#'
      → Without b'{' (c ∷ name)
      → bound_text (c ∷ name) text ≡ bucket (c ∷ name) b
      → parse_line fl parse_float snap
          (line fl format_float ((c ∷ name) ++ bucket_word) (le_label text) v)
        ≡ some (record snap {
          hists =
              map_put bytes_eq
                (c ∷ name)
                (map_put (eq_float fl) b v (map_get_or bytes_eq [] (c ∷ name) snap.hists))
                snap.hists;
        })
  unfolding line
  parse_line-bucket c name text b v snap h w bound =
      let labels = b'{' ∷ le_label text ++ b'}' ∷ [] in
      let whole = append_assoc ((c ∷ name) ++ bucket_word) labels (b' ' ∷ format_float v) in
      ap (parse_line fl parse_float snap) (sym whole)
      ∙ read_line c ((name ++ bucket_word) ++ labels) v snap h
      ∙ ap (λ k. store_at fl parse_float k ((c ∷ name) ++ bucket_word ++ labels) v snap)
          (ap (bucket_key fl parse_float) (bucket_key_text (c ∷ name) text)
            ∙ bucket_key-text (c ∷ name) text w
            ∙ bound)

  -- the line of a value without labels
  pub parse_line-scalar :
      (c : ℕ) (name : List ℕ) (v : F) (snap : Snapshot F)
      → c ≢ b'#'
      → Without b'{' (c ∷ name)
      → parse_line fl parse_float snap (line fl format_float (c ∷ name) [] v)
        ≡ some (record snap { scalars = map_put bytes_eq (c ∷ name) v snap.scalars })
  unfolding line
  parse_line-scalar c name v snap h w =
      read_line c name v snap h
      ∙ ap (λ k. store_at fl parse_float k (c ∷ name) v snap) (bucket_key-plain (c ∷ name) w)
