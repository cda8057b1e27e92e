-- ===== src/Dev/Tests.antt =====
-- The default specification at a date.
use avalanche_ops.Text.{decimal, truncate, byte_length}
use avalanche_ops.Dev.{Spec, default, default_spec, validate, default_arch, ok}
use avalanche_ops.Dev.Valid.{IsValid, machine_validate-ok_iff, default-validate}
use avalanche_ops.Utils.Id.{replaced, DateTime, with_time, get, string, system, shorten}
use avalanche_ops.Prelude.{◌≡◌, ◌↔◌, refl}
use avalanche_ops.Outcome.{ok}

abbrev today : DateTime
today = record { year = 2022; month = 7; day = 4; hour = 9; second = 30 }

abbrev made : Spec
made = default_spec "dev-machine-202207-aB3dEf" "dev-machine-202207-xyz4567" "arm64"

default_runs : default today "aB3dEfgh" "XYZ456789" "arm64" ≡ ok made
unfolding default with_time get string system replaced shorten truncate byte_length decimal
default_runs = refl

default-validate_example : (default_arch ≡ default_arch) × (validate made ≡ ok tt)
default-validate_example = default-validate today "aB3dEfgh" "XYZ456789" "arm64" made default_runs

machine_validate-ok_iff_example : validate made ≡ ok tt ↔ IsValid made
machine_validate-ok_iff_example = machine_validate-ok_iff made
