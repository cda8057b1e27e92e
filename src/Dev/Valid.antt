-- ===== src/Dev/Valid.antt =====
-- The specifications of development machines that pass the checks.
use mathlib.Core.Option.{some-injective}
use avalanche_ops.Dev.{Spec, default, validate, ok, AwsResources, default_arch, default_spec}
use avalanche_ops.Text.{is_empty, byte_length, format}
use avalanche_ops.Prelude.{
  String, ◌≡◌, false, Option-cases, arith, ◌↔◌, inl, ◌≤◌, inr, some, Bool-cases, str_eq, eq_iff,
  ◌+◌, refl, ◌∷◌, [],
}
use avalanche_ops.Outcome.{ok, Outcome-cases}
use avalanche_ops.Utils.Id.{DateTime, with_time, get, system}
use avalanche_ops.Io.{Error}
use avalanche_ops.Utils.Id.Lengths.{is_empty-with_time, with_time-le}

-- A non-empty id of at most 28 bytes, a region where there are resources, and one or two machines.
pub record IsValid (spec : Spec) : Type 0 where
  pub id_fits : (is_empty spec.id ≡ false) × (byte_length spec.id ≤ 28)
  pub has_region : (r : AwsResources) → spec.aws_resources ≡ some r → is_empty r.region ≡ false
  pub machines_fit : (1 ≤ spec.machine.machines) × (spec.machine.machines ≤ 2)

IsValid-validate : (spec : Spec) → IsValid spec → validate spec ≡ ok tt
unfolding validate
IsValid-validate spec v = elim (Option-cases spec.aws_resources) [
  | inl e ↦ rw e (ground (arith, v))
  | inr (r, e) ↦ let region = v.has_region r e in rw e (ground (arith, v))
]

validate-ok : (spec : Spec) → validate spec ≡ ok tt → IsValid spec
unfolding validate
validate-ok spec h = record {
  id_fits = ground arith;
  has_region = λ r e. (let g = rw e at h in ground arith);
  machines_fit = ground arith;
}

-- A specification passes the checks exactly when it is valid: its id has 1 to 28 bytes, it has a
-- region where it has resources, and one or two machines.
pub machine_validate-ok_iff : (spec : Spec) → validate spec ≡ ok tt ↔ IsValid spec
machine_validate-ok_iff spec = (validate-ok spec, IsValid-validate spec)

default_parts :
    (now : DateTime) (random host arch : String) (spec : Spec)
    → default now random host arch ≡ ok spec
    → (arch ≡ default_arch)
      × ((id : String) × (bucket : String) × (with_time {E = Error} now random "dev-machine"
            ≡ ok id)
          × (default_spec id bucket arch ≡ spec))
unfolding default
default_parts now random host arch spec h = elim (Bool-cases (str_eq arch default_arch)) [
  | inr other ↦ let g = rw other at h in cc g
  | inl same ↦ elim (Outcome-cases (with_time {E = Error} now random "dev-machine")) [
    | inr (inl (e, failed)) ↦ let g = rw (same, failed) at h in cc g
    | inr (inr failed) ↦ let g = rw (same, failed) at h in cc g
    | inl (id, i) ↦ elim (Outcome-cases (get {E = Error} now 6)) [
      | inr (inl (e, failed)) ↦ let g = rw (same, i, failed) at h in cc g
      | inr (inr failed) ↦ let g = rw (same, i, failed) at h in cc g
      | inl (time, t) ↦ elim (Outcome-cases (system {E = Error} host 7)) [
        | inr (inl (e, failed)) ↦ let g = rw (same, i, t, failed) at h in cc g
        | inr (inr failed) ↦ let g = rw (same, i, t, failed) at h in cc g
        | inl (suffix, s) ↦
            let g = rw (same, i, t, s) at h in
            (
              (eq_iff arch default_arch).0 same,
              (id, format ("dev-machine-" ∷ time ∷ "-" ∷ suffix ∷ []), i, cc g),
            )
      ]
    ]
  ]
]

default_spec-IsValid :
    (id bucket arch : String)
    → is_empty id ≡ false
    → byte_length id ≤ byte_length "dev-machine" + 14
    → IsValid (default_spec id bucket arch)
unfolding byte_length
default_spec-IsValid id bucket arch e l = record {
  id_fits = (e, omega (arith, l));
  has_region = λ r h. rw (← some-injective _ r h) refl;
  machines_fit = (omega arith, omega arith);
}

-- If a default specification is given, the architecture is the default one, and the specification
-- passes the checks.
pub default-validate :
    (now : DateTime) (random host arch : String) (spec : Spec)
    → default now random host arch ≡ ok spec
    → (arch ≡ default_arch) × (validate spec ≡ ok tt)
default-validate now random host arch spec h =
    let (arm, (id, bucket, i, e)) = default_parts now random host arch spec h in
    (
      arm,
      IsValid-validate spec (
          rw (← e) (
            default_spec-IsValid id bucket arch (is_empty-with_time now random _ "ev-machine" id i)
              (with_time-le now random "dev-machine" id i))),
    )
