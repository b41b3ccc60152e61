-- ===== src/Pipeline/Build.antt =====
-- internal/pipeline/pipeline.go, `New`: the edges and the pipeline of a conversation.
use voice_flux_engine.Prelude.{none, [], false}
use voice_flux_engine.Prelude.Result.{Result, ok, err}
use voice_flux_engine.Ring.{RingError, parse_policy}
use voice_flux_engine.Edge.{Edge, new_edge}
use voice_flux_engine.Config.{Config}
use voice_flux_engine.Pipeline.{Pipeline, idle}

-- the error of a policy, which is passed on, or of an edge, which is wrapped
pub data BuildError : Type 0 where
  policy_error ingress_error egress_error : RingError → BuildError

-- A pipeline with both its edges; `Pipeline` holds the one that the turns use.
pub record Built (A : Type 0) : Type 0 where
  pub ingress : Edge A
  pub pipe : Pipeline (Edge A)

abbrev pub new_pipe : {E : Type 0} → E → Pipeline E
new_pipe e = record {
  phase = idle;
  history = [];
  finals = [];
  barge_in = false;
  egress = e;
  last = none;
  published = [];
  hooks = [];
  asked = [];
}

unfoldable pub new_pipeline : {A F : Type 0} → A → Config F → Result BuildError (Built A)
new_pipeline blank c = elim (parse_policy c.ingress_policy) [
  | err e ↦ err (policy_error e)
  | ok p ↦ elim (parse_policy c.egress_policy) [
    | err e ↦ err (policy_error e)
    | ok q ↦ elim (new_edge blank c.ingress_capacity p) [
      | err e ↦ err (ingress_error e)
      | ok i ↦ elim (new_edge blank c.egress_capacity q) [
        | err e ↦ err (egress_error e)
        | ok o ↦ ok (record { ingress = i; pipe = new_pipe o })
      ]
    ]
  ]
]
