-- ===== src/Query/Params.antt =====
-- api/routers/query.py: the reading of the parameters of `/query`; api/models.py: `QueryRequest`,
-- which says the same of a search, but for two limits.
use log_foundry.Prelude.{
  ℕ, String, Bool, true, ◌&&◌, leb, Option, none, some, List, [], ◌∷◌, if◌then◌else◌, Dict, member,
  lookup, Outcome, ◌>>=◌, ret, raise, value_error,
}
use Prim.Native.String
use log_foundry.Prelude.Int.{ℤ, pos, negsuc}
use log_foundry.Query.Build.{Filters}

-- What the web framework does: the parameters of a query string, a time and a number of pydantic,
-- `none` where they are refused. `value_error` stands for the answer 422.
pub record Forms : Type 0 where
  pub parameters : String → Dict String
  pub datetime : String → Option ℕ
  pub int : String → Option ℤ

-- `max_length=8192`, in characters
unfoldable pub read_search : Option String → Outcome (Option String)
read_search none = ret none
read_search (some t) = if leb (String.count t) 8192 then ret (some t) else raise value_error

-- `default=100, ge=1, le=1000`
unfoldable pub limit_of : Option ℤ → Outcome ℕ
limit_of (some (pos n)) = if leb 1 n && leb n 1000 then ret n else raise value_error
limit_of (some (negsuc n)) = raise value_error
limit_of none = raise value_error

module _ (forms : Forms) where
  unfoldable pub read_limit : Option String → Outcome ℕ
  unfolding limit_of
  read_limit none = ret 100
  read_limit (some t) = limit_of (forms.int t)

  unfoldable pub read_time : Option String → Outcome (Option ℕ)
  read_time none = ret none
  read_time (some t) = elim (forms.datetime t) [ none ↦ raise value_error | some n ↦ ret (some n) ]

  -- The signature of `query_logs`.
  unfoldable pub read_filters : String → Outcome Filters
  unfolding read_search read_limit read_time
  read_filters query =
      let params = forms.parameters query in
      do
        search ← read_search (lookup "search" params)
        since ← read_time (lookup "since" params)
        until ← read_time (lookup "until" params)
        limit ← read_limit (lookup "limit" params)
        ret (record {
          service = lookup "service" params;
          level = lookup "level" params;
          search = search;
          since = since;
          until = until;
          limit = limit;
        })

abbrev pub query_levels : List String
query_levels = "DEBUG" ∷ "INFO" ∷ "WARNING" ∷ "ERROR" ∷ "CRITICAL" ∷ []

unfoldable pub is_query_level : Option String → Bool
is_query_level none = true
is_query_level (some level) = member level query_levels

-- `QueryRequest`, of values that have their types.
unfoldable pub query_request : Filters → Outcome Filters
unfolding is_query_level
query_request f =
    if is_query_level f.level && (leb 1 f.limit && leb f.limit 1000)
    then ret f
    else raise value_error
