-- ===== src/Config/Dotenv.antt =====
-- internal/config/dotenv.go: the reading of a file of environment variables. Its text and the
-- variables are lists of bytes; an environment is an association list.
use voice_flux_engine.Prelude.{
  ℕ, ◌-◌, ◌≡◌, refl, sym, subst, ap, ◌∙◌, ◌==◌, ◌&&◌, ◌||◌, if◌then◌else◌, if-true, if-false, Bool,
  false, Bool-cases, Option, none, some, option_case, List, [], ◌∷◌, length, get_or, take, drop,
  inl, inr,
}
use voice_flux_engine.Prelude.Bytes.{bytes_eq, bytes_eq→eq, has_prefix, trim_space}
use mathlib.Core.Option.{some-injective, none-ne-some}

abbrev pub Env : Type 0
Env = List (List ℕ × List ℕ)

-- `os.LookupEnv`
abbrev pub lookup_env : List ℕ → Env → Option (List ℕ)
lookup_env k [] = none
lookup_env k ((k', v) ∷ env) = let rest = lookup_env k env in if bytes_eq k k' then some v else rest

abbrev pub has_byte : ℕ → List ℕ → Bool
has_byte c [] = false
has_byte c (x ∷ xs) = (x == c) || has_byte c xs

-- `os.Setenv` of a variable that is not set; `none` is its error on a zero byte
abbrev pub set_env : (key val : List ℕ) → Env → Option Env
set_env key val env = if has_byte 0 key || has_byte 0 val then none else some ((key, val) ∷ env)

-- #
abbrev pub hash : List ℕ
hash = b'#' ∷ []

-- export and a space
abbrev pub export_word : List ℕ
export_word = b'e' ∷ b'x' ∷ b'p' ∷ b'o' ∷ b'r' ∷ b't' ∷ b' ' ∷ []

abbrev pub trim_prefix : (s p : List ℕ) → List ℕ
trim_prefix s p = if has_prefix s p then drop (length p) s else s

-- the parts before and after the first byte `c`
abbrev pub cut_byte : ℕ → List ℕ → Option (List ℕ × List ℕ)
cut_byte c [] = none
cut_byte c (x ∷ xs) =
    let rest = cut_byte c xs in
    if x == c then some ([], xs) else elim rest [ some (a, b) ↦ some (x ∷ a, b) | none ↦ none ]

abbrev pub is_quote : ℕ → Bool
is_quote c = (c == b'"') || (c == b'\'')

unfoldable pub unquote : List ℕ → List ℕ
unquote [] = []
unquote (c ∷ []) = c ∷ []
unquote (c ∷ d ∷ s) =
    let n = length (d ∷ s) in
    if is_quote c && (get_or (d ∷ s) (n - 1) 0 == c) then take (n - 1) (d ∷ s) else c ∷ d ∷ s

-- the entry of a line, with its value as it is set
unfoldable pub entry : List ℕ → Option (List ℕ × List ℕ)
entry text =
    let line = trim_space text in
    if bytes_eq line [] || has_prefix line hash
    then none
    else elim (cut_byte b'=' (trim_prefix line export_word)) [
      | none ↦ none
      | some (key, val) ↦
          if bytes_eq (trim_space key) []
          then none
          else some (trim_space key, unquote (trim_space val))
    ]

-- an entry in the environment; `none` is an error
unfoldable pub set_entry : Option (List ℕ × List ℕ) → Env → Option Env
set_entry none env = some env
set_entry (some (key, val)) env = elim (lookup_env key env) [
  | some v ↦ some env
  | none ↦ set_env key val env
]

-- the loop of `LoadDotEnv` over the lines
unfoldable pub load : List (List ℕ) → Env → Option Env
load [] env = some env
load (line ∷ lines) env = elim (set_entry (entry line) env) [
  | none ↦ none
  | some env' ↦ load lines env'
]

abbrev pub or_later : Option (List ℕ) → Option (List ℕ) → Option (List ℕ)
or_later (some v) o = some v
or_later none o = o

abbrev pub value_for : List ℕ → Option (List ℕ × List ℕ) → Option (List ℕ)
value_for k none = none
value_for k (some (key, val)) = if bytes_eq k key then some val else none

-- the value that the first line for the variable gives
abbrev pub first_value : List ℕ → List (List ℕ) → Option (List ℕ)
first_value k [] = none
first_value k (line ∷ lines) = or_later (value_for k (entry line)) (first_value k lines)

or_later-none : (o : Option (List ℕ)) → or_later o none ≡ o
or_later-none none = refl
or_later-none (some v) = refl

or_later_assoc : (a b c : Option (List ℕ)) → or_later (or_later a b) c ≡ or_later a (or_later b c)
or_later_assoc none b c = refl
or_later_assoc (some v) b c = refl

-- a variable that is set keeps its value, whatever the entry
or_later-set :
    (k key val w : List ℕ) (env : Env)
    → lookup_env key env ≡ some w
    → lookup_env k env ≡ or_later (lookup_env k env) (value_for k (some (key, val)))
or_later-set k key val w env e = elim (Bool-cases (bytes_eq k key)) [
  | inl u ↦
      let set = subst (λ x. lookup_env x env ≡ some w) (sym (bytes_eq→eq k key u)) e in
      set ∙ sym (ap (λ o. or_later o (value_for k (some (key, val)))) set)
  | inr u ↦ sym (
      ap (or_later (lookup_env k env)) (if-false (some val) none u)
      ∙ or_later-none (lookup_env k env))
]

or_later-new :
    (k key val : List ℕ) (env : Env)
    → lookup_env key env ≡ none
    → lookup_env k ((key, val) ∷ env) ≡ or_later (lookup_env k env) (value_for k (some (key, val)))
or_later-new k key val env e = elim (Bool-cases (bytes_eq k key)) [
  | inl u ↦
      let unset = subst (λ x. lookup_env x env ≡ none) (sym (bytes_eq→eq k key u)) e in
      if-true _ _ u
      ∙ sym (ap (λ o. or_later o (value_for k (some (key, val)))) unset ∙ if-true (some val) none u)
  | inr u ↦
      if-false _ _ u
      ∙ sym (
          ap (or_later (lookup_env k env)) (if-false (some val) none u)
          ∙ or_later-none (lookup_env k env))
]

set_entry-lookup :
    (e : Option (List ℕ × List ℕ)) (env env' : Env) (k : List ℕ)
    → set_entry e env ≡ some env'
    → lookup_env k env' ≡ or_later (lookup_env k env) (value_for k e)
unfolding set_entry
set_entry-lookup none env env' k h =
    ap (lookup_env k) (sym (some-injective _ _ h)) ∙ sym (or_later-none (lookup_env k env))
set_entry-lookup (some (key, val)) env env' k h =
    elim (option_case (lookup_env key env) (set_env key val env) (some env') (λ w. some env) h) [
      | inr (w, e, h') ↦
          ap (lookup_env k) (sym (some-injective _ _ h')) ∙ or_later-set k key val w env e
      | inl (e, h') ↦ elim (Bool-cases (has_byte 0 key || has_byte 0 val)) [
        | inl t ↦ absurd (none-ne-some _ (sym (if-true _ _ t) ∙ h'))
        | inr t ↦
            ap (lookup_env k) (sym (some-injective _ _ (sym (if-false _ _ t) ∙ h')))
            ∙ or_later-new k key val env e
      ]
    ]

-- After a file is loaded without an error, a variable has the value that it had before; one that was
-- not set has the value of the file's first line for it, and is not set when there is none.
pub load-lookup :
    (lines : List (List ℕ)) (env last : Env) (k : List ℕ)
    → load lines env ≡ some last
    → lookup_env k last ≡ or_later (lookup_env k env) (first_value k lines)
unfolding load
load-lookup [] env last k h =
    ap (lookup_env k) (sym (some-injective _ _ h)) ∙ sym (or_later-none (lookup_env k env))
load-lookup (line ∷ lines) env last k h =
    elim (option_case (set_entry (entry line) env) none (some last) (λ x. load lines x) h) [
      | inl (e, h') ↦ absurd (none-ne-some _ h')
      | inr (env', e, h') ↦
          load-lookup lines env' last k h'
          ∙ ap (λ o. or_later o (first_value k lines)) (set_entry-lookup (entry line) env env' k e)
          ∙ or_later_assoc (lookup_env k env) (value_for k (entry line)) (first_value k lines)
    ]
