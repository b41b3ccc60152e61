-- ===== src/Adapter/Registry.antt =====
-- internal/adapter/registry.go: the adapters by name. `C` is the type of configurations, `T` one of
-- the three types of adapters; the mutex makes each operation one step.
-- A name is a list of bytes.
use voice_flux_engine.Prelude.{
  ℕ, ◌≡◌, sym, ◌∙◌, if◌then◌else◌, if-true, if-false, Bool-cases, Option, none, some, option_case,
  subst, List, [], ◌∷◌, inl, inr,
}
use mathlib.Core.Option.{some-injective, none-ne-some}
use voice_flux_engine.Prelude.Bytes.{bytes_eq, bytes_eq_refl, bytes_eq→eq}
use voice_flux_engine.Prelude.Result.{Result, ok, err, ◌>>=◌}

pub data Kind : Type 0 where
  asr llm tts : Kind

pub data BuildError (E : Type 0) : Type 0 where
  unknown : Kind → List ℕ → BuildError E
  failed : E → BuildError E

-- a registry of factories, of type `G`
module _ {G : Type 0} where
  -- `reg[name]`
  abbrev pub factory : List ℕ → List (List ℕ × G) → Option G
  factory name [] = none
  factory name ((k, f) ∷ reg) =
      let rest = factory name reg in if bytes_eq name k then some f else rest

  -- `none` is the panic on a name that is taken
  unfoldable pub register : List ℕ → G → List (List ℕ × G) → Option (List (List ℕ × G))
  register name f reg = elim (factory name reg) [ some g ↦ none | none ↦ some ((name, f) ∷ reg) ]

  unfoldable pub register_all : List (List ℕ × G) → List (List ℕ × G) → Option (List (List ℕ × G))
  register_all [] reg = some reg
  register_all ((name, f) ∷ rest) reg = elim (register name f reg) [
    | none ↦ none
    | some reg' ↦ register_all rest reg'
  ]

-- `build`
unfoldable pub build_one :
    {C E T : Type 0}
    → Kind
    → List ℕ
    → C
    → List (List ℕ × (C → Result E T))
    → Result (BuildError E) T
build_one kind name cfg reg = elim (factory name reg) [
  | none ↦ err (unknown kind name)
  | some f ↦ elim (f cfg) [ ok t ↦ ok t | err e ↦ err (failed e) ]
]

-- `Set`
pub record AdapterSet (Asr Llm Tts : Type 0) : Type 0 where
  pub asr_adapter : Asr
  pub llm_adapter : Llm
  pub tts_adapter : Tts

pub record Names : Type 0 where
  pub asr_name : List ℕ
  pub llm_name : List ℕ
  pub tts_name : List ℕ

-- `Build`, with the registries
unfoldable pub build_set :
    {C E Asr Llm Tts : Type 0}
    → Names
    → C
    → List (List ℕ × (C → Result E Asr))
    → List (List ℕ × (C → Result E Llm))
    → List (List ℕ × (C → Result E Tts))
    → Result (BuildError E) (AdapterSet Asr Llm Tts)
build_set names cfg asrs llms ttss = build_one asr names.asr_name cfg asrs >>= λ a.
    build_one llm names.llm_name cfg llms >>= λ l. build_one tts names.tts_name cfg ttss >>= λ t.
    ok (record { asr_adapter = a; llm_adapter = l; tts_adapter = t })

module _ {G : Type 0} where
  register_cases :
      (name : List ℕ) (f : G) (reg reg' : List (List ℕ × G))
      → register name f reg ≡ some reg'
      → (factory name reg ≡ none) × ((name, f) ∷ reg ≡ reg')
  unfolding register
  register_cases name f reg reg' h =
      elim (option_case (factory name reg) (some ((name, f) ∷ reg)) (some reg') (λ g. none) h) [
        | inl (e, h') ↦ (e, some-injective _ _ h')
        | inr (g, e, h') ↦ absurd (none-ne-some _ h')
      ]

  register-keeps :
      (name : List ℕ) (f : G) (reg reg' : List (List ℕ × G)) (k : List ℕ) (g : G)
      → register name f reg ≡ some reg'
      → factory k reg ≡ some g
      → factory k reg' ≡ some g
  register-keeps name f reg reg' k g h e =
      let (fresh, same) = register_cases name f reg reg' h in
      subst (λ r. factory k r ≡ some g) same
        (elim (Bool-cases (bytes_eq k name)) [
          | inl t ↦
              let clash = subst (λ x. factory x reg ≡ some g) (bytes_eq→eq k name t) e in
              absurd (none-ne-some _ (sym fresh ∙ clash))
          | inr t ↦ if-false _ _ t ∙ e
        ])

  register-finds :
      (name : List ℕ) (f : G) (reg reg' : List (List ℕ × G))
      → register name f reg ≡ some reg'
      → factory name reg' ≡ some f
  register-finds name f reg reg' h =
      let (fresh, same) = register_cases name f reg reg' h in
      subst (λ r. factory name r ≡ some f) same (if-true _ _ (bytes_eq_refl name))

  -- every listed name is found, with its factory
  abbrev pub AllFound : List (List ℕ × G) → List (List ℕ × G) → Type 0
  AllFound [] reg = Unit
  AllFound ((name, f) ∷ rest) reg = (factory name reg ≡ some f) × AllFound rest reg

  register_all-step :
      (name : List ℕ) (f : G) (rest reg last : List (List ℕ × G))
      → register_all ((name, f) ∷ rest) reg ≡ some last
      → (reg' : List (List ℕ × G)) × (register name f reg ≡ some reg')
        × (register_all rest reg' ≡ some last)
  unfolding register_all
  register_all-step name f rest reg last h =
      elim (option_case (register name f reg) none (some last) (λ r. register_all rest r) h) [
        | inl (e, h') ↦ absurd (none-ne-some _ h')
        | inr (reg', e, h') ↦ (reg', e, h')
      ]

  register_all-keeps :
      (rest reg last : List (List ℕ × G)) (k : List ℕ) (g : G)
      → register_all rest reg ≡ some last
      → factory k reg ≡ some g
      → factory k last ≡ some g
  unfolding register_all
  register_all-keeps [] reg last k g h e =
      subst (λ r. factory k r ≡ some g) (some-injective _ _ h) e
  register_all-keeps ((name, f) ∷ rest) reg last k g h e =
      let (reg', r, h') = register_all-step name f rest reg last h in
      register_all-keeps rest reg' last k g h' (register-keeps name f reg reg' k g r e)

  -- When a program's registrations do not panic, each name that it registers is bound to its own
  -- factory afterwards, whatever was registered before or after.
  pub register_all-AllFound :
      (rest reg last : List (List ℕ × G)) → register_all rest reg ≡ some last → AllFound rest last
  register_all-AllFound [] reg last h = tt
  register_all-AllFound ((name, f) ∷ rest) reg last h =
      let (reg', r, h') = register_all-step name f rest reg last h in
      (
        register_all-keeps rest reg' last name f h' (register-finds name f reg reg' r),
        register_all-AllFound rest reg' last h',
      )
