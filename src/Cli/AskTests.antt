-- ===== src/Cli/AskTests.antt =====
-- The search of `tail` at the API, on concrete input.
use log_foundry.Prelude.{
  ℕ, ◌≤◌, ◌≡◌, ◌↔◌, ◌⊎◌, refl, ap, ◌^^◌, decimal, false, Option, none, some, [], Outcome, ret,
  raise, value_error, lookup, member,
}
use log_foundry.Prelude.Int.{pos}
use log_foundry.Metrics.Sample.{int, int-Reads}
use log_foundry.Metrics.Worth.{Reads}
use log_foundry.Query.Build.{Filters}
use log_foundry.Query.Params.{
  Forms, read_search, limit_of, read_limit, read_time, read_filters, query_request, is_query_level,
}
use log_foundry.Cli.Tail.{Options, Services, Fetched, join_amp, url}
use log_foundry.Cli.Asks.{asked, query_string}
use log_foundry.Cli.Answered.{Laws, filters_of, read_filters-url}

-- Texts that are their own quotes; times that are numbers.
abbrev services : Services ℕ
services = record {
  urlopen = λ address n. (ret Fetched.url_error, n);
  quote = λ t. t;
  isoformat = λ n. decimal n;
  fromisoformat = λ t. int t;
  results_of = λ t. ret [];
}

abbrev options : ℕ → Options
options limit = record {
  endpoint = "http://localhost:8000";
  service = some "pay";
  level = none;
  search = some "no";
  limit = limit;
  follow = false;
}

abbrev to_option : {A B : Type 0} → (A → B) → Outcome A → Option B
to_option f (ret a) = some (f a)
to_option f (raise e) = none

-- A framework that has split this query string.
abbrev forms : ℕ → Forms
forms limit = record {
  parameters = λ t. asked services (options limit) (some 7);
  datetime = λ t. to_option (λ n. n) (int t);
  int = λ t. to_option pos (int t);
}

laws : (limit : ℕ) → Laws services (forms limit)
laws limit = record {
  datetime-isoformat = λ n. ap (to_option (λ n. n)) (Reads.int-decimal int-Reads n);
  int-decimal = λ n. ap (to_option pos) (Reads.int-decimal int-Reads n);
}

read_filters-url_example :
    (url services (options 2000) (some 7)
      ≡ "http://localhost:8000" ^^ "/query" ^^ "?" ^^ query_string services (options 2000) (some 7))
    × ((read_filters (forms 2000) (query_string services (options 2000) (some 7))
          ≡ ret (filters_of services (forms 2000) (options 2000) (some 7)))
        ↔ ((1 ≤ 2000) × (2000 ≤ 1000) × (2 ≤ 8192)))
    × ((read_filters (forms 2000) (query_string services (options 2000) (some 7))
          ≡ ret (filters_of services (forms 2000) (options 2000) (some 7)))
        ⊎ (read_filters (forms 2000) (query_string services (options 2000) (some 7))
            ≡ raise value_error))
read_filters-url_example =
    read_filters-url services (forms 2000) (options 2000) (some 7) (laws 2000) refl

asked_text : query_string services (options 50) (some 7) ≡ "service=pay&search=no&since=7&limit=50"
unfolding join_amp decimal
asked_text = refl

let_in : read_filters (forms 50) "…" ≡ ret (filters_of services (forms 50) (options 50) (some 7))
unfolding read_filters read_search read_limit limit_of read_time lookup decimal
let_in = refl

too_many : read_filters (forms 2000) "…" ≡ raise value_error
unfolding read_filters read_search read_limit limit_of read_time lookup decimal
too_many = refl

-- The endpoint takes a level that `QueryRequest` does not know.
abbrev of_level : Filters
of_level = record {
  service = none;
  level = some "TRACE";
  search = none;
  since = none;
  until = none;
  limit = 100;
}

refused : query_request of_level ≡ raise value_error
unfolding query_request is_query_level member
refused = refl
