-- ===== src/Loadgen/Scrape/Histogram.antt =====
-- The text of a whole histogram, as metrics.go writes it, is read back by scrape.go.
use voice_flux_engine.Prelude.{
  ℕ, ◌+◌, ◌≡◌, ◌≢◌, refl, sym, ap, ◌∙◌, not, if-false, false, Option, none, some, List, [], ◌∷◌,
  ◌++◌, append_assoc, append-nil, get_or, drop, u64, arith,
}
use voice_flux_engine.Prelude.Int.{pos}
use voice_flux_engine.Prelude.Float.{Float64}
use voice_flux_engine.Prelude.Sort.{All}
use voice_flux_engine.Prelude.Bytes.{bytes_eq, Without, Without-append}
use voice_flux_engine.Metrics.{
  Histogram, line, le_label, bucket_word, sum_word, count_word, inf_word, help_word, type_word,
  histogram_word, space, cumulated, bucket_lines, histogram_lines,
}
use voice_flux_engine.Loadgen.Scrape.{
  Snapshot, map_get, map_put, eq_float, plus_inf, bucket, parse_line, parse_lines,
}
use voice_flux_engine.Loadgen.Scrape.RoundTrip.{
  bound_text, bound_text-finite, parse_line-bucket, parse_line-scalar,
}
use voice_flux_engine.Loadgen.Scrape.Store.{
  stored, stored-last, readings, Distinct, Fresh, Fresh-nil, Fresh-next, put-stored,
}

module _ (fl : Float64) where
  open fl use {F, of_int}

  -- the parameters of this part are those of the reading of a line
  module _ (parse_float : List ℕ → Option F) (format_float : F → List ℕ)
      (reads : (v : F) → parse_float (format_float v) ≡ some v)
      (plain : (v : F) → Without b' ' (format_float v)) where
    open fl use {inf}

    parse_lines-step :
        (snap next : Snapshot F) (l : List ℕ) (ls : List (List ℕ))
        → parse_line fl parse_float snap l ≡ some next
        → parse_lines fl parse_float snap (l ∷ ls) ≡ parse_lines fl parse_float next ls
    unfolding parse_lines
    parse_lines-step snap next l ls e =
        ap
          (λ o. elim o as (λ _. Option (Snapshot F)) [
            | none ↦ none
            | some s ↦ parse_lines fl parse_float s ls
          ])
          e

    -- a snapshot with some readings fl of a histogram
    abbrev having : List ℕ → List (F × F) → Snapshot F → Snapshot F
    having name ps snap = record snap { hists = stored name ps snap.hists }

    -- the line of a bucket that has not been read
    read_bucket :
        (c : ℕ) (name text : List ℕ) (b v : F) (ps : List (F × F)) (snap : Snapshot F)
        → c ≢ b'#'
        → Without b'{' (c ∷ name)
        → bound_text fl parse_float format_float reads plain (c ∷ name) text ≡ bucket (c ∷ name) b
        → map_get bytes_eq (c ∷ name) snap.hists ≡ none
        → map_get (eq_float fl) b ps ≡ none
        → parse_line fl parse_float
            (having (c ∷ name) ps snap)
            (line fl format_float ((c ∷ name) ++ bucket_word) (le_label text) v)
          ≡ some (having (c ∷ name) (ps ++ (b, v) ∷ []) snap)
    read_bucket c name text b v ps snap h w bound n e =
        parse_line-bucket fl parse_float format_float reads plain c name text b v
          (having (c ∷ name) ps snap) h w bound
        ∙ ap (λ hs. some (record snap { hists = hs }))
            (put-stored fl (c ∷ name) b v ps snap.hists n e)

    abbrev pub Finite : List F → Type 0
    Finite bounds = All (λ b. not (bytes_eq (format_float b) plus_inf)) bounds

    read_buckets :
        (c cum : ℕ) (name counts : List ℕ) (bounds : List F) (ps : List (F × F)) (snap : Snapshot F)
        (rest : List (List ℕ))
        → c ≢ b'#'
        → Without b'{' (c ∷ name)
        → Finite bounds
        → Distinct fl bounds
        → Fresh fl ps bounds
        → map_get bytes_eq (c ∷ name) snap.hists ≡ none
        → parse_lines fl parse_float
            (having (c ∷ name) ps snap)
            (bucket_lines fl format_float (c ∷ name) cum bounds counts ++ rest)
          ≡ parse_lines fl parse_float
              (having (c ∷ name) (ps ++ readings fl cum bounds counts) snap)
              rest
    unfolding bucket_lines
    read_buckets c cum name counts [] ps snap rest h w fin d f n =
        ap (λ qs. parse_lines fl parse_float (having (c ∷ name) qs snap) rest) (sym (append-nil ps))
    read_buckets c cum name counts (b ∷ bounds) ps snap rest h w (fb, fin) (db, d) (e, f) n =
        let cum' = u64 (cum + get_or counts 0 0) in
        let v = of_int (pos cum') in
        let finite : bytes_eq (format_float b) plus_inf ≡ false = ground arith in
        parse_lines-step (having (c ∷ name) ps snap) (having (c ∷ name) (ps ++ (b, v) ∷ []) snap) _
          _
          (read_bucket c name (format_float b) b v ps snap h w
            (bound_text-finite fl parse_float format_float reads plain (c ∷ name) b finite) n e)
        ∙ read_buckets c cum' name (drop 1 counts) bounds (ps ++ (b, v) ∷ []) snap rest h w fin d
            (Fresh-next fl b v ps bounds db f) n
        ∙ ap (λ qs. parse_lines fl parse_float (having (c ∷ name) qs snap) rest)
            (append_assoc ps ((b, v) ∷ []) (readings fl cum' bounds (drop 1 counts)))

    readings-missing :
        (k : F) (cum : ℕ) (bounds : List F) (counts : List ℕ)
        → All (λ b. not (eq_float fl k b)) bounds
        → map_get (eq_float fl) k (readings fl cum bounds counts) ≡ none
    readings-missing k cum [] counts a = refl
    readings-missing k cum (b ∷ bounds) counts (h, a) =
        let e : eq_float fl k b ≡ false = ground arith in
        if-false _ _ e ∙ readings-missing k (u64 (cum + get_or counts 0 0)) bounds (drop 1 counts) a

    -- a comment
    parse_line-hash :
        (snap : Snapshot F) (l : List ℕ) → parse_line fl parse_float snap (b'#' ∷ l) ≡ some snap
    unfolding parse_line
    parse_line-hash snap l = refl

    -- the first lines of a histogram after their number sign
    abbrev help_tail : (name help : List ℕ) → List ℕ
    help_tail name help = drop 1 help_word ++ (name ++ (space ++ help))

    abbrev type_tail : List ℕ → List ℕ
    type_tail name = drop 1 type_word ++ (name ++ (space ++ histogram_word))

    sum_word-plain : Without b'{' sum_word
    sum_word-plain =
        ((λ e. omega arith), ((λ e. omega arith), ((λ e. omega arith), ((λ e. omega arith), tt))))

    count_word-plain : Without b'{' count_word
    count_word-plain = (
      (λ e. omega arith),
      (
        (λ e. omega arith),
        ((λ e. omega arith), ((λ e. omega arith), ((λ e. omega arith), ((λ e. omega arith), tt)))),
      ),
    )

    -- the reading of the last lines of a histogram
    read_ends :
        (c : ℕ) (name : List ℕ) (top sum count : F) (ps : List (F × F)) (snap : Snapshot F)
        → c ≢ b'#'
        → Without b'{' (c ∷ name)
        → map_get bytes_eq (c ∷ name) snap.hists ≡ none
        → map_get (eq_float fl) inf ps ≡ none
        → parse_lines fl parse_float (having (c ∷ name) ps snap) (
            line fl format_float ((c ∷ name) ++ bucket_word) (le_label inf_word) top
            ∷ line fl format_float ((c ∷ name) ++ sum_word) [] sum
            ∷ line fl format_float ((c ∷ name) ++ count_word) [] count
            ∷ [])
          ≡ some (record {
            scalars =
                map_put bytes_eq
                  ((c ∷ name) ++ count_word)
                  count
                  (map_put bytes_eq ((c ∷ name) ++ sum_word) sum snap.scalars);
            hists = stored (c ∷ name) (ps ++ (inf, top) ∷ []) snap.hists;
          })
    unfolding parse_lines
    read_ends c name top sum count ps snap h w n e =
        let l1 = line fl format_float ((c ∷ name) ++ sum_word) [] sum in
        let l2 = line fl format_float ((c ∷ name) ++ count_word) [] count in
        let s1 = having (c ∷ name) (ps ++ (inf, top) ∷ []) snap in
        let s2 : Snapshot F = record s1 {
          scalars = map_put bytes_eq ((c ∷ name) ++ sum_word) sum snap.scalars;
        } in
        let plain_sum = Without-append b'{' (c ∷ name) sum_word w sum_word-plain in
        let plain_count = Without-append b'{' (c ∷ name) count_word w count_word-plain in
        parse_lines-step (having (c ∷ name) ps snap) s1 _ (l1 ∷ l2 ∷ [])
          (read_bucket c name inf_word inf top ps snap h w refl n e)
        ∙ parse_lines-step s1 s2 _ (l2 ∷ []) (
            parse_line-scalar fl parse_float format_float reads plain c (name ++ sum_word) sum s1 h
              plain_sum)
        ∙ parse_lines-step s2 _ _ [] (
            parse_line-scalar fl parse_float format_float reads plain c (name ++ count_word) count
              s2 h plain_count)

    -- The text of a histogram, read after others, adds it to the snapshot: the sum and the count as
    -- the values of their names, and as the readings fl of its name the count cumulated at each bound, in
    -- order, and that of all at infinity. The name begins with no number sign, has no brace and is
    -- new, and the bounds are finite and differ from each other.
    pub parse_lines-histogram_lines :
        (c : ℕ) (name : List ℕ) (h : Histogram F) (snap : Snapshot F)
        → h.name ≡ c ∷ name
        → c ≢ b'#'
        → Without b'{' (c ∷ name)
        → Finite h.bounds
        → All (λ b. not (eq_float fl inf b)) h.bounds
        → Distinct fl h.bounds
        → map_get bytes_eq (c ∷ name) snap.hists ≡ none
        → parse_lines fl parse_float snap (histogram_lines fl format_float h)
          ≡ some (record {
            scalars =
                map_put bytes_eq
                  ((c ∷ name) ++ count_word)
                  (of_int (pos h.count))
                  (map_put bytes_eq ((c ∷ name) ++ sum_word) h.sum snap.scalars);
            hists =
                snap.hists
                ++ (
                  c ∷ name,
                  readings fl 0 h.bounds h.counts
                      ++ (
                        inf,
                        of_int (pos (u64 (cumulated fl format_float 0 h.counts + h.inf_count))),
                      )
                        ∷ [],
                )
                  ∷ [];
          })
    unfolding histogram_lines
    parse_lines-histogram_lines c name h snap named hash w fin below d n =
        let top = of_int (pos (u64 (cumulated fl format_float 0 h.counts + h.inf_count))) in
        let ends =
          line fl format_float ((c ∷ name) ++ bucket_word) (le_label inf_word) top
          ∷ line fl format_float ((c ∷ name) ++ sum_word) [] h.sum
          ∷ line fl format_float ((c ∷ name) ++ count_word) [] (of_int (pos h.count))
          ∷ [] in
        let ps = readings fl 0 h.bounds h.counts in
        let buckets = bucket_lines fl format_float (c ∷ name) 0 h.bounds h.counts in
        ap
          (λ text.
            parse_lines fl parse_float snap
              (histogram_lines fl format_float (record h { name = text })))
          named
        ∙ parse_lines-step snap snap _ ((b'#' ∷ type_tail (c ∷ name)) ∷ buckets ++ ends)
            (parse_line-hash snap (help_tail (c ∷ name) h.help))
        ∙ parse_lines-step snap snap _ (buckets ++ ends)
            (parse_line-hash snap (type_tail (c ∷ name)))
        ∙ read_buckets c 0 name h.counts h.bounds [] snap ends hash w fin d (Fresh-nil fl h.bounds)
            n
        ∙ read_ends c name top h.sum (of_int (pos h.count)) ps snap hash w n
            (readings-missing inf 0 h.bounds h.counts below)
        ∙ ap
            (λ hs. some (record {
              scalars =
                  map_put bytes_eq ((c ∷ name) ++ count_word) (of_int (pos h.count))
                    (map_put bytes_eq ((c ∷ name) ++ sum_word) h.sum snap.scalars);
              hists = hs;
            }))
            (stored-last (c ∷ name) ps (inf, top) snap.hists)
