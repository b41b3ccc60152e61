-- ===== src/Config/Build.antt =====
-- What a validated configuration builds.
use text.Mathlib.Text.{◌==◌ as str_eq}
use voice_flux_engine.Prelude.{
  ℕ, ◌≡◌, refl, ap, ◌||◌, not, ◌^◌, if◌then◌else◌, Bool, true, false, Option, none, some, arith,
}
use voice_flux_engine.Prelude.Bits.{power_of_two}
use voice_flux_engine.Prelude.Int.{ℤ, pos, negsuc}
use voice_flux_engine.Prelude.Result.{Result, ok, err}
use voice_flux_engine.Ring.{Policy, RingError, parse_policy}
use voice_flux_engine.Ring.New.{new_iff}
use voice_flux_engine.Edge.{Edge, new_edge}
use voice_flux_engine.Config.{
  Config, ConfigError, validate_rest, empty_addr, bad_sample_rate, bad_channels,
  bad_ingress_capacity, bad_egress_capacity, bad_ingress_policy, bad_chan_caps, bad_egress_policy,
  validate, is_ok, is_power_of_two, is_positive,
}

ok-of : (r : Result RingError Policy) → is_ok r ≡ true → (p : Policy) × (r ≡ ok p)
ok-of (ok p) h = (p, refl)
ok-of (err e) h = absurd (ground arith)

power-of : (c : ℤ) → is_power_of_two c ≡ true → (k : ℕ) × (c ≡ pos (2 ^ k))
power-of (pos n) h = let (k, e) = power_of_two n (ground arith) (ground arith) in (k, ap pos e)
power-of (negsuc n) h = absurd (ground arith)

-- what passing eight guards says of four of them
passed :
    (a b c d e f g h : Bool) (o : Option ConfigError)
    → (if a
        then some empty_addr
        else if b
        then some bad_sample_rate
        else if c
        then some bad_channels
        else if d
        then some bad_ingress_capacity
        else if e
        then some bad_egress_capacity
        else if f
        then some bad_ingress_policy
        else if g
        then some bad_chan_caps
        else if h
        then some bad_egress_policy
        else o)
      ≡ none
    → (b ≡ false) × (d ≡ false) × (e ≡ false) × (f ≡ false) × (h ≡ false)
passed a b c d e f g h o t = (ground arith, ground arith, ground arith, ground arith, ground arith)

not-not : (b : Bool) → not b ≡ false → b ≡ true
not-not true h = refl
not-not false h = ground arith

positive-of : (c : ℤ) → is_positive c ≡ true → (n : ℕ) × (c ≡ pos n)
positive-of (pos n) h = (n, refl)
positive-of (negsuc n) h = absurd (ground arith)

-- what a validated configuration gives to its readers
pub record Valid {F : Type 0} (c : Config F) : Type 0 where
  pub rate : (n : ℕ) × (c.sample_rate ≡ pos n)
  pub ingress : (k : ℕ) × (c.ingress_capacity ≡ pos (2 ^ k))
  pub egress : (k : ℕ) × (c.egress_capacity ≡ pos (2 ^ k))
  pub ingress_policy : (p : Policy) × (parse_policy c.ingress_policy ≡ ok p)
  pub egress_policy : (p : Policy) × (parse_policy c.egress_policy ≡ ok p)

edge-of :
    {A : Type 0} (blank : A) (c : ℤ) (p : Policy)
    → ((k : ℕ) × (c ≡ pos (2 ^ k)))
    → (e : Edge A) × (new_edge blank c p ≡ ok e)
unfolding new_edge
edge-of blank c p h =
    let (r, e) = (new_iff blank c p).1 h in (record { ring = r; bell = false }, rw (e, new_edge))

module _ {F : Type 0} (not_positive : F → Bool) (gt : F → F → Bool) where
  pub validate-Valid : (c : Config F) → validate not_positive gt c ≡ none → Valid c
  unfolding validate
  validate-Valid c h =
      let (z, a, b, x, y) =
        passed (str_eq c.addr "") (not (is_positive c.sample_rate)) (not (is_positive c.channels))
          (not (is_power_of_two c.ingress_capacity)) (not (is_power_of_two c.egress_capacity))
          (not (is_ok (parse_policy c.ingress_policy)))
          (not (is_positive c.token_chan_cap)
            || (not (is_positive c.transcript_chan_cap) || not (is_positive c.audio_chan_cap)))
          (not (is_ok (parse_policy c.egress_policy))) (validate_rest not_positive gt c) h in
      record {
        rate = positive-of c.sample_rate (not-not _ z);
        ingress = power-of c.ingress_capacity (not-not _ a);
        egress = power-of c.egress_capacity (not-not _ b);
        ingress_policy = ok-of (parse_policy c.ingress_policy) (not-not _ x);
        egress_policy = ok-of (parse_policy c.egress_policy) (not-not _ y);
      }

  -- With a configuration that passes validation, both policies parse and both edges of a pipeline
  -- can be made, so that `pipeline.New` does not fail.
  pub validated_builds :
      {A : Type 0} (blank : A) (c : Config F)
      → validate not_positive gt c ≡ none
      → (p : Policy) × (q : Policy) × (i : Edge A) × (o : Edge A) × (parse_policy c.ingress_policy
          ≡ ok p)
        × (parse_policy c.egress_policy ≡ ok q)
        × (new_edge blank c.ingress_capacity p ≡ ok i)
        × (new_edge blank c.egress_capacity q ≡ ok o)
  validated_builds blank c h =
      let v = validate-Valid c h in
      let (p, x) = v.ingress_policy in
      let (q, y) = v.egress_policy in
      let (i, m) = edge-of blank c.ingress_capacity p v.ingress in
      let (o, n) = edge-of blank c.egress_capacity q v.egress in (p, q, i, o, x, y, m, n)
