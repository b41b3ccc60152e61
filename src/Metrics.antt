-- ===== src/Metrics.antt =====
-- internal/metrics/metrics.go: the instruments and their text. `F` is float64; a counter is a 64-bit
-- word.
pub mod Buckets
pub mod Observations
pub mod Hub
pub mod Record
mod Tests
use voice_flux_engine.Prelude.{
  ℕ, suc, ◌+◌, ◌%◌, ◌^◌, ltb, ◌==◌, ◌||◌, if◌then◌else◌, Bool, true, false, List, [], ◌∷◌, ◌++◌,
  length, get_or, set, drop, replicate, u64,
}
use voice_flux_engine.Prelude.Int.{pos}
use voice_flux_engine.Prelude.Float.{Float64}

pub record Counter : Type 0 where
  pub name : List ℕ
  pub help : List ℕ
  pub v : ℕ

-- `Counter.Add`
unfoldable pub add_count : ℕ → Counter → Counter
add_count n c = record c { v = u64 (c.v + n) }

-- the sum by its bits, which stand for a number
pub record Histogram (F : Type 0) : Type 0 where
  pub name : List ℕ
  pub help : List ℕ
  pub bounds : List F
  pub counts : List ℕ
  pub inf_count : ℕ
  pub sum : F
  pub count : ℕ

abbrev pub space : List ℕ
space = b' ' ∷ []

-- # HELP
abbrev pub help_word : List ℕ
help_word = b'#' ∷ b' ' ∷ b'H' ∷ b'E' ∷ b'L' ∷ b'P' ∷ b' ' ∷ []

-- # TYPE
abbrev pub type_word : List ℕ
type_word = b'#' ∷ b' ' ∷ b'T' ∷ b'Y' ∷ b'P' ∷ b'E' ∷ b' ' ∷ []

-- _bucket
abbrev pub bucket_word : List ℕ
bucket_word = b'_' ∷ b'b' ∷ b'u' ∷ b'c' ∷ b'k' ∷ b'e' ∷ b't' ∷ []

-- _sum
abbrev pub sum_word : List ℕ
sum_word = b'_' ∷ b's' ∷ b'u' ∷ b'm' ∷ []

-- _count
abbrev pub count_word : List ℕ
count_word = b'_' ∷ b'c' ∷ b'o' ∷ b'u' ∷ b'n' ∷ b't' ∷ []

-- +Inf
abbrev pub inf_word : List ℕ
inf_word = b'+' ∷ b'I' ∷ b'n' ∷ b'f' ∷ []

-- histogram
abbrev pub histogram_word : List ℕ
histogram_word = b'h' ∷ b'i' ∷ b's' ∷ b't' ∷ b'o' ∷ b'g' ∷ b'r' ∷ b'a' ∷ b'm' ∷ []

-- counter
abbrev pub counter_word : List ℕ
counter_word = b'c' ∷ b'o' ∷ b'u' ∷ b'n' ∷ b't' ∷ b'e' ∷ b'r' ∷ []

-- the label of a bucket
abbrev pub le_label : List ℕ → List ℕ
le_label bound = b'l' ∷ b'e' ∷ b'=' ∷ b'"' ∷ (bound ++ b'"' ∷ [])

-- the lines of `textWriter.head`
abbrev pub head : (name help typ : List ℕ) → List (List ℕ)
head name help typ =
    (help_word ++ (name ++ (space ++ help))) ∷ (type_word ++ (name ++ (space ++ typ))) ∷ []

module _ (fl : Float64) where
  open fl use {F, of_int, add, ge, lt}

  -- `sort.SearchFloat64s`: the first index with a bound at least `x`, on ascending bounds
  unfoldable pub search : List F → F → ℕ
  search [] x = 0
  search (b ∷ bounds) x = let rest = search bounds x in if ge b x then 0 else suc rest

  -- A number that is not at least itself is NaN.
  abbrev pub is_nan : F → Bool
  is_nan x = if ge x x then false else true

  -- `Observe` when no other goroutine changes the histogram
  unfoldable pub observe : F → Histogram F → Histogram F
  observe x h =
      if lt x (of_int (pos 0)) || is_nan x
      then h
      else let idx = search h.bounds x in
        let counted : Histogram F =
          if ltb idx (length h.bounds)
          then record h { counts = set h.counts idx (u64 (get_or h.counts idx 0 + 1)) }
          else record h { inf_count = u64 (h.inf_count + 1) } in
        record counted { count = u64 (h.count + 1); sum = add h.sum x }

  -- `Observe` for each of some values
  unfoldable pub observe_all : List F → Histogram F → Histogram F
  observe_all [] h = h
  observe_all (x ∷ xs) h = observe_all xs (observe x h)

  -- `NewHistogram` without its registration
  abbrev pub new_histogram : (name help : List ℕ) → List F → Histogram F
  new_histogram name help bounds = record {
    name = name;
    help = help;
    bounds = bounds;
    counts = replicate (length bounds) 0;
    inf_count = 0;
    sum = of_int (pos 0);
    count = 0;
  }

  -- `format_float` is strconv.FormatFloat in its shortest form.
  module _ (format_float : F → List ℕ) where
    -- the line of `textWriter.line`
    unfoldable pub line : (name labels : List ℕ) → F → List ℕ
    line name [] v = name ++ (space ++ format_float v)
    line name (c ∷ labels) v =
        name ++ ((b'{' ∷ (c ∷ labels ++ b'}' ∷ [])) ++ (space ++ format_float v))

    -- the loop over the bounds; the counts are cumulated from `cum` on
    unfoldable pub bucket_lines : List ℕ → ℕ → (bounds : List F) → (counts : List ℕ) → List (List ℕ)
    bucket_lines name cum [] counts = []
    bucket_lines name cum (b ∷ bounds) counts =
        let cum' = u64 (cum + get_or counts 0 0) in
        line (name ++ bucket_word) (le_label (format_float b)) (of_int (pos cum'))
        ∷ bucket_lines name cum' bounds (drop 1 counts)

    -- the sum that the loop leaves
    abbrev pub cumulated : ℕ → List ℕ → ℕ
    cumulated cum [] = cum
    cumulated cum (c ∷ counts) = cumulated (u64 (cum + c)) counts

    -- the text of a histogram
    unfoldable pub histogram_lines : Histogram F → List (List ℕ)
    histogram_lines h =
        head h.name h.help histogram_word
        ++ (bucket_lines h.name 0 h.bounds h.counts
            ++ (line (h.name ++ bucket_word) (le_label inf_word)
                  (of_int (pos (u64 (cumulated 0 h.counts + h.inf_count))))
                ∷ line (h.name ++ sum_word) [] h.sum
                ∷ line (h.name ++ count_word) [] (of_int (pos h.count))
                ∷ []))

    -- the text of a counter
    unfoldable pub counter_lines : Counter → List (List ℕ)
    counter_lines c = head c.name c.help counter_word ++ line c.name [] (of_int (pos c.v)) ∷ []
