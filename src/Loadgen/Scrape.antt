-- ===== src/Loadgen/Scrape.antt =====
-- internal/loadgen/scrape.go: the reading of the metrics text, and the histogram of a window with
-- its quantiles. A text is a list of bytes.
pub mod Quantile
pub mod RoundTrip
pub mod Store
pub mod Histogram
pub mod Observed
use voice_flux_engine.Prelude.{
  ℕ, ◌+◌, ◌-◌, ◌<◌, ltb, ◌==◌, ◌&&◌, ◌||◌, not, if◌then◌else◌, Bool, true, false, Option, none,
  some, List, [], ◌∷◌, ◌++◌, map, length, get_or, take,
}
use voice_flux_engine.Prelude.Int.{pos, negsuc}
use voice_flux_engine.Prelude.Float.{Float64}
use voice_flux_engine.Prelude.Sort.{sort}
use voice_flux_engine.Prelude.Bytes.{bytes_eq, has_prefix, has_suffix, cut_last, cut}
use voice_flux_engine.Loadgen.Report.{hundredths}

-- A map is an association list.
module _ {K : Type 0} {V : Type 0} (eq : K → K → Bool) where
  abbrev pub map_get : K → List (K × V) → Option V
  map_get k [] = none
  map_get k ((k', v) ∷ m) = let rest = map_get k m in if eq k k' then some v else rest

  -- a new key comes last
  abbrev pub map_put : K → V → List (K × V) → List (K × V)
  map_put k v [] = (k, v) ∷ []
  map_put k v ((k', v') ∷ m) =
      let rest = map_put k v m in if eq k k' then (k', v) ∷ m else (k', v') ∷ rest

  abbrev pub map_get_or : V → K → List (K × V) → V
  map_get_or d k m = elim (map_get k m) [ none ↦ d | some v ↦ v ]

abbrev pub hash : List ℕ
hash = b'#' ∷ []

-- _bucket{le="
abbrev pub bucket_open : List ℕ
bucket_open = b'_' ∷ b'b' ∷ b'u' ∷ b'c' ∷ b'k' ∷ b'e' ∷ b't' ∷ b'{' ∷ b'l' ∷ b'e' ∷ b'=' ∷ b'"' ∷ []

-- "}
abbrev pub bucket_close : List ℕ
bucket_close = b'"' ∷ b'}' ∷ []

abbrev pub plus_inf : List ℕ
plus_inf = b'+' ∷ b'I' ∷ b'n' ∷ b'f' ∷ []

-- What `bucketKey` does with a key: the slice of the bound panics when its ends cross.
pub data BucketKey (F : Type 0) : Type 0 where
  panics no_bucket : BucketKey F
  bucket : List ℕ → F → BucketKey F

-- the snapshot without its time
pub record Snapshot (F : Type 0) : Type 0 where
  pub scalars : List (List ℕ × F)
  pub hists : List (List ℕ × List (F × F))

module _ (fl : Float64) where
  open fl use {F, of_int, add, sub, mul, div, ge, lt, inf}

  -- the test `==`
  abbrev pub eq_float : F → F → Bool
  eq_float a b = ge a b && ge b a

  abbrev pub zero_float : F
  zero_float = of_int (pos 0)

  -- `parse_float` is strconv.ParseFloat.
  module _ (parse_float : List ℕ → Option F) where
    abbrev pub bound_of : List ℕ → Option F → BucketKey F
    bound_of name none = no_bucket
    bound_of name (some le) = bucket name le

    -- `after` is what follows the opening
    abbrev pub bucket_after : (name after : List ℕ) → BucketKey F
    bucket_after name after =
        let text = take (length after - 2) after in
        if ltb (length after) 2
        then panics
        else if bytes_eq text plus_inf
        then bucket name inf
        else bound_of name (parse_float text)

    abbrev pub on_cut : List ℕ → Option (List ℕ × List ℕ) → BucketKey F
    on_cut key none = no_bucket
    on_cut key (some (name, after)) =
        if not (has_suffix key bucket_close) then no_bucket else bucket_after name after

    unfoldable pub bucket_key : List ℕ → BucketKey F
    bucket_key key = on_cut key (cut key bucket_open)

    -- the end of `parseLine` on a known key, `none` on a panic
    abbrev pub store_at : BucketKey F → List ℕ → F → Snapshot F → Option (Snapshot F)
    store_at panics key val snap = none
    store_at (bucket name le) key val snap = some (record snap {
      hists =
          map_put bytes_eq name (map_put eq_float le val (map_get_or bytes_eq [] name snap.hists))
            snap.hists;
    })
    store_at no_bucket key val snap =
        some (record snap { scalars = map_put bytes_eq key val snap.scalars })

    abbrev pub on_value : List ℕ → Option F → Snapshot F → Option (Snapshot F)
    on_value key none snap = some snap
    on_value key (some v) snap = store_at (bucket_key key) key v snap

    -- `line[:sp]` and `line[sp+1:]`, when there is a space past the start
    abbrev pub on_space : Option (List ℕ × List ℕ) → Snapshot F → Option (Snapshot F)
    on_space none snap = some snap
    on_space (some ([], val)) snap = some snap
    on_space (some (c ∷ key, val)) snap = on_value (c ∷ key) (parse_float val) snap

    unfoldable pub parse_line : Snapshot F → List ℕ → Option (Snapshot F)
    parse_line snap line =
        if bytes_eq line [] || has_prefix line hash
        then some snap
        else on_space (cut_last b' ' line) snap

    -- the loop of `scrape` over the lines
    unfoldable pub parse_lines : Snapshot F → List (List ℕ) → Option (Snapshot F)
    parse_lines snap [] = some snap
    parse_lines snap (l ∷ ls) = elim (parse_line snap l) [
      | none ↦ none
      | some snap' ↦ parse_lines snap' ls
    ]

  abbrev pub scalar : Snapshot F → List ℕ → F
  scalar s name = map_get_or bytes_eq zero_float name s.scalars

  abbrev pub scalar_delta : Snapshot F → Snapshot F → List ℕ → F
  scalar_delta s0 s1 name = sub (scalar s1 name) (scalar s0 name)

  -- the loop of `histDelta` over the bounds; `h0` is empty where the source has nil
  unfoldable pub window_counts :
      (h0 : Option (List (F × F))) (h1 : List (F × F)) (prev : F) → List F → List F
  window_counts h0 h1 prev [] = []
  window_counts h0 h1 prev (le ∷ bounds) =
      let cum : F = elim h0 [
        | none ↦ map_get_or eq_float zero_float le h1
        | some h ↦ sub (map_get_or eq_float zero_float le h1) (map_get_or eq_float zero_float le h)
      ] in
      sub cum prev ∷ window_counts h0 h1 cum bounds

  unfoldable pub hist_delta : Snapshot F → Snapshot F → List ℕ → List F × List F
  hist_delta s0 s1 name = elim (map_get bytes_eq name s1.hists) [
    | none ↦ ([], [])
    | some h1 ↦
        let bounds = sort (λ a b. ge b a) (map (λ p. p.0) h1) in
        (bounds, window_counts (map_get bytes_eq name s0.hists) h1 zero_float bounds)
  ]

  unfoldable pub total : F → List F → F
  total sum [] = sum
  total sum (c ∷ counts) = total (add sum c) counts

  -- the value of a bucket that the target falls into
  abbrev pub interpolate : (lower upper c cum target : F) → F
  interpolate lower upper c cum target =
      if eq_float upper inf
      then lower
      else if ge zero_float c
      then upper
      else add lower (div (mul (sub upper lower) (sub target (sub cum c))) c)

  -- The loop of `histQuantile`; `lower` is the bound before. There are as many counts as bounds.
  unfoldable pub find_bucket : (target lower cum : F) (bounds counts : List F) → Option F
  find_bucket target lower cum bounds [] = none
  find_bucket target lower cum [] (c ∷ counts) = none
  find_bucket target lower cum (upper ∷ bounds) (c ∷ counts) =
      let rest = find_bucket target upper (add cum c) bounds counts in
      if ge (add cum c) target then some (interpolate lower upper c (add cum c) target) else rest

  -- past the loop: the last bound, or the one before it when that is +Inf
  unfoldable pub last_finite : List F → F
  last_finite bounds =
      let n = length bounds in
      let last = get_or bounds (n - 1) zero_float in
      if eq_float last inf && ltb 1 n then get_or bounds (n - 2) zero_float else last

  -- `histQuantile` at `q` per cent
  unfoldable pub hist_quantile : (bounds counts : List F) → ℕ → F
  hist_quantile bounds counts q =
      let sum = total zero_float counts in
      if ge zero_float sum || length bounds == 0
      then of_int (negsuc 0)
      else elim (find_bucket (mul (hundredths fl q) sum) zero_float zero_float bounds counts) [
        | some v ↦ v
        | none ↦ last_finite bounds
      ]
