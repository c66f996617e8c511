-- ===== src/Tests/Sample.antt =====
-- A record of tools/efi-inventory/probe.c on a machine without a map and without a device tree.
use muen_orin.Base.{true, ◌≡◌, refl, [], some, none, codes, arith}
use muen_orin.Status.{observed, unavailable}
use muen_orin.Fdt.Result.{blank}
use muen_orin.Probe.Noted.{no_services-MapOk}
use muen_orin.Observe.Variable.{VarResult, var_result}
use muen_orin.Writer.Put.{Writer, new_writer}
use muen_orin.Probe.Console.{Output}
use muen_orin.Probe.Pool.{no_services}
use muen_orin.Probe.Search.{no_dt}
use muen_orin.Probe.Report.{c_string}
use muen_orin.Probe.Record.{Findings, build_record}
use muen_orin.Probe.Json.{value, after, read}
use muen_orin.Probe.Says.{Says}
use muen_orin.Probe.Reportable.{VarOk}
use muen_orin.Probe.Recorded.{DtOk, IsReportable, build_record-Says}
use muen_orin.Probe.Ending.{EndsWith, record-EndsWith}
use muen_orin.Probe.Main.{record_capacity}
use muen_orin.Tests.{hi}

abbrev no_variable : VarResult
no_variable = var_result unavailable "service_missing" 0

abbrev sample : Findings
sample = record {
  vendor = record { state = observed; units = 2; text = hi };
  firmware_revision = 1;
  uefi_revision = 131152;
  loaded = some (record { has_file_path = true; image_base = 65536; image_size = 4096 });
  image_status = 0;
  acquisition = no_services;
  search = no_dt 0;
  secure = no_variable;
  setup = no_variable;
  level = record { state = observed; raw = 8; level = 2 };
}

no_variable-VarOk : VarOk no_variable
no_variable-VarOk = record { detail = refl; status = omega arith; value = omega arith }

no_dt-DtOk : DtOk (no_dt 0)
unfolding no_dt blank c_string
no_dt-DtOk = record {
  detail = refl;
  searched = omega arith;
  total = omega arith;
  size = λ _. omega arith;
  version = λ _. omega arith;
  last_comp_version = λ _. omega arith;
  model_length = omega arith;
  model_text = [];
  has_nul = refl;
}

sample-IsReportable : IsReportable sample
sample-IsReportable = record {
  vendor = record { units = omega arith; room = omega arith };
  firmware_revision = omega arith;
  uefi_revision = omega arith;
  loaded = (omega arith, omega arith);
  image_status = omega arith;
  acquisition = no_services-MapOk;
  search = no_dt-DtOk;
  secure = no_variable-VarOk;
  setup = no_variable-VarOk;
  level = record { raw = omega arith; level = omega arith };
}

build_record-Says_example : Says (value, []) (after, []) (build_record sample)
build_record-Says_example = build_record-Says sample sample-IsReportable

abbrev silent : Output (Unit {0})
silent chunk s = (0, s)

record-EndsWith_example :
    (w : Writer) × (build_record sample (new_writer record_capacity) ≡ some w)
    × EndsWith silent 0 (build_record-Says sample sample-IsReportable).text w
record-EndsWith_example = record-EndsWith silent 0 sample sample-IsReportable

members_accepted :
    read (value, []) (codes "{\"a\":[0,{},\"\\u00e9\"],\"b\":null}") ≡ some (after, [])
members_accepted = refl

leading_zero_refused : read (value, []) (codes "{\"a\":01}") ≡ none
leading_zero_refused = refl

last_comma_refused : read (value, []) (codes "{\"a\":1,}") ≡ none
last_comma_refused = refl

second_value_refused : read (value, []) (codes "{}{}") ≡ none
second_value_refused = refl

bad_escape_refused : read (value, []) (codes "\"\\x\"") ≡ none
bad_escape_refused = refl
