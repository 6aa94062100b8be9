-- ===== src/Cli/Tests.antt =====
-- The command line client on concrete input.
use log_foundry.Prelude.{
  lookup, Bool, false, ◌==◌, ◌||◌, ◌<◌, ◌+◌, ℕ, suc, ◌≡◌, refl, ap, String, decimal, decimal_fuel,
  true, none, some, [], ◌∷◌, length, str_eq, if◌then◌else◌, member, Outcome, and_then, ret, arith,
  eq_iff, ◌≤◌, ◌≢◌,
}
use log_foundry.Prelude.Int.{ℤ, pos}
use log_foundry.Metrics.Sample.{int, int-Reads}
use log_foundry.Metrics.Worth.{Reads}
use log_foundry.Cli.Since.{parse_since, unsnoc, unit_of, go_back}
use log_foundry.Cli.Tail.{
  LogEntry, Options, body, http_error, Services, Run, url, join_amp, replace_z, filter_new,
  print_entries, show_results, api_request, poll_once, trim, tail_loop,
}
use log_foundry.Metrics.Exposition.{sample, print_line}
use log_foundry.Cli.Stats.{
  labelled, show_line, show_metric, break_at, break_last, strip_text, strip_left, strip_right,
  strip_prefix,
}
use log_foundry.Cli.Format.{format_log_entry, color_of, time_of, first_chars, pad, spaces}
use log_foundry.Cli.Once.{times, ids}
use log_foundry.Cli.Account.{start, tail_loop-once}

abbrev int_z : String → Outcome ℤ
int_z t = and_then (int t) (λ n. ret (pos n))

int_z-decimal : (n : ℕ) → int_z (decimal n) ≡ ret (pos n)
int_z-decimal n = ap (λ o. and_then o (λ n. ret (pos n))) (Reads.int-decimal int-Reads n)

unknown : unit_of "y" ≡ none
unfolding unit_of
unknown = refl

two_hours : parse_since int_z 10800000000 "2h" ≡ ret 3600000000
unfolding parse_since unsnoc unit_of go_back
two_hours = refl

abbrev log_entry : String → LogEntry
log_entry id = record {
  id = some id;
  level = some "INFO";
  timestamp = some "2024-01-01T00:00:00Z";
  service = some "pay";
  message = some "hi";
  trace_id = none;
}

abbrev options : Options
options = record {
  endpoint = "http://localhost:8000";
  service = some "pay";
  level = none;
  search = none;
  limit = 50;
  follow = true;
}

-- The first answer has the events b and a, the second an API error, the third c and b.
abbrev services : Services ℕ
services = record {
  urlopen =
      λ address n. (ret (if str_eq (decimal n) "1" then http_error else body (decimal n)), suc n);
  quote = λ t. t;
  isoformat = λ t. decimal t;
  fromisoformat = λ t. ret 7;
  results_of = λ t. ret (
      if str_eq t "0"
      then log_entry "b" ∷ log_entry "a" ∷ []
      else log_entry "c" ∷ log_entry "b" ∷ []);
}

abbrev finished : Run ℕ
finished = (tail_loop services options 3 (start 0 none)).1

runs : (tail_loop services options 3 (start 0 none)).0 ≡ ret tt
unfolding tail_loop poll_once api_request url join_amp show_results filter_new print_entries
    replace_z trim decimal decimal_fuel member
runs = refl

printed : ids finished.printed ≡ "a" ∷ "b" ∷ "c" ∷ []
unfolding tail_loop poll_once api_request url join_amp show_results filter_new print_entries
    replace_z trim decimal decimal_fuel member
printed = refl

received : ids finished.received ≡ "b" ∷ "a" ∷ "c" ∷ "b" ∷ []
unfolding tail_loop poll_once api_request url join_amp show_results filter_new print_entries
    replace_z trim decimal decimal_fuel member
received = refl

few : length finished.printed ≡ 3
unfolding tail_loop poll_once api_request url join_amp show_results filter_new print_entries
    replace_z trim decimal decimal_fuel member
few = refl

b-ne-empty : ◌≢◌ {A = String} "b" ""
b-ne-empty h = ground (arith, (eq_iff "b" "").1 h)

came : 1 ≤ times "b" (ids finished.received)
came = omega (arith, ap (times "b") received)

tail_loop-once_example : times "b" (ids finished.printed) ≡ 1
tail_loop-once_example =
    tail_loop-once services options 3 0 none "b" b-ne-empty runs came (omega (arith, few))

abbrev is_space : ℕ → Bool
is_space c = (c == 32) || (c == 10)

abbrev alerts_of_pay : String
alerts_of_pay = "logfoundry_alerts_total{service=\"pay\",level=\"ERROR\"} 3"

printed_alerts :
    print_line (sample "logfoundry_alerts_total" (("service", "pay") ∷ ("level", "ERROR") ∷ []) 3)
    ≡ alerts_of_pay
unfolding print_line decimal decimal_fuel
printed_alerts = refl

-- The alerts of another service pass the filter, for the word in the metric's name.
shown_for_web :
    show_line is_space (some "web") alerts_of_pay
    ≡ ret (labelled "logfoundry_alerts_total" "service=\"pay\",level=\"ERROR\"" "3" ∷ [])
unfolding show_line show_metric break_at break_last strip_text strip_left strip_right strip_prefix
shown_for_web = refl

-- Its other counters do not.
hidden_for_web :
    show_line is_space (some "web") "logfoundry_logs_by_service{service=\"pay\"} 3" ≡ ret []
unfolding show_line show_metric break_at break_last strip_text strip_left strip_right strip_prefix
hidden_for_web = refl

digits : (d : ℕ) → d < 10 → is_space (48 + d) ≡ false
digits d h = ground arith

formatted : format_log_entry (log_entry "a") ≡ "✅ [00:00:00Z] pay | INFO     | hi"
unfolding format_log_entry time_of break_at strip_prefix first_chars pad spaces lookup
formatted = refl

colored : color_of (log_entry "a") ≡ "green"
unfolding color_of lookup
colored = refl
