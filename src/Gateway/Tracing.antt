-- ===== src/Gateway/Tracing.antt =====
-- api/main.py: `_setup_otel`.
use log_foundry.Prelude.{
  String, Option, none, some, List, [], ◌∷◌, Outcome, ret, raise, Exc, import_error,
}

-- The calls of the `try` block, in the order in which Python makes them. The address and the name
-- are those of the environment.
pub data OtelCall : Type 0 where
  import_packages : OtelCall
  create_resource : String → OtelCall
  make_provider : OtelCall
  make_exporter : String → OtelCall
  make_processor : OtelCall
  add_span_processor : OtelCall
  set_tracer_provider : OtelCall
  instrument_app : OtelCall

-- What is logged at the end.
pub data Notice : Type 0 where
  enabled : String → String → Notice
  not_available : Notice
  failed : Exc → Notice

abbrev pub or_default : String → Option String → String
or_default default none = default
or_default default (some t) = t

abbrev pub otel_calls : String → String → List OtelCall
otel_calls otel_endpoint service_name =
    import_packages
    ∷ create_resource service_name
    ∷ make_provider
    ∷ make_exporter otel_endpoint
    ∷ make_processor
    ∷ add_span_processor
    ∷ set_tracer_provider
    ∷ instrument_app
    ∷ []

-- `except ImportError` and `except Exception`
abbrev pub notice_of : Exc → Notice
notice_of import_error = not_available
notice_of e = failed e

module _ {S : Type 0} (call : OtelCall → S → Outcome (Unit {0}) × S) where
  -- One call after the other, up to one that raises; the calls that were made, and the world.
  unfoldable pub run_calls : List OtelCall → S → Outcome (Unit {0}) × (List OtelCall × S)
  run_calls [] s = (ret tt, ([], s))
  run_calls (c ∷ calls) s =
      let (o, s') = call c s in
      let rest = run_calls calls s' in
      elim o [ raise e ↦ (raise e, (c ∷ [], s')) | ret ok ↦ (rest.0, (c ∷ rest.1.0, rest.1.1)) ]

  unfoldable pub setup_otel : Option String → Option String → S → Notice × (List OtelCall × S)
  unfolding run_calls
  setup_otel endpoint_var service_var s =
      let otel_endpoint = or_default "http://localhost:4317" endpoint_var in
      let service_name = or_default "logfoundry-api" service_var in
      let (o, made) = run_calls (otel_calls otel_endpoint service_name) s in
      (elim o [ ret ok ↦ enabled otel_endpoint service_name | raise e ↦ notice_of e ], made)
