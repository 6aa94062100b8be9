-- ===== src/Cli/Answered.antt =====
-- api/routers/query.py: what the API reads of the search that `tail` asks for.
use log_foundry.Prelude.{
  ℕ, ◌≤◌, ◌≡◌, ◌↔◌, ◌⊎◌, inl, inr, refl, String, ◌^^◌, decimal, Bool, true, ◌&&◌, leb, Option, none,
  some, Dict, ret, raise, value_error, arith, Option-cases,
}
use Prim.Native.String
use log_foundry.Prelude.Int.{pos}
use log_foundry.Gateway.Models.{ensure}
use log_foundry.Gateway.Ensure.{two_tests, ensure_iff}
use log_foundry.Query.Build.{Filters}
use log_foundry.Query.Params.{Forms, read_search, limit_of, read_limit, read_time, read_filters}
use log_foundry.Cli.Asks.{asked, query_string, url-query_string, time_text, Holds, asked-Holds}
use log_foundry.Cli.Tail.{Options, Services, url}

module _ {S : Type 0} (v : Services S) (forms : Forms) where
  -- What is relied on: a time and a number are read back.
  pub record Laws : Type 0 where
    pub datetime-isoformat : (n : ℕ) → forms.datetime (v.isoformat n) ≡ some n
    pub int-decimal : (n : ℕ) → forms.int (decimal n) ≡ some (pos n)

  module _ (o : Options) (since_dt : Option ℕ) where
    abbrev search_fits : Bool
    search_fits = elim o.search [ none ↦ true | some t ↦ leb (String.count t) 8192 ]

    abbrev let_in : Bool
    let_in = search_fits && (leb 1 o.limit && leb o.limit 1000)

    -- The search that was asked for.
    abbrev pub filters_of : Filters
    filters_of = record {
      service = o.service;
      level = o.level;
      search = o.search;
      since = since_dt;
      until = none;
      limit = o.limit;
    }

    read_time_lem :
        Laws → (time : Option ℕ) → read_time forms ((time_text v o since_dt) time) ≡ ret time
    unfolding read_time
    read_time_lem laws none = refl
    read_time_lem laws (some n) = rw (laws.datetime-isoformat n) refl

    read_limit_lem :
        Laws
        → read_limit forms (some (decimal o.limit))
          ≡ ensure (leb 1 o.limit && leb o.limit 1000) o.limit
    unfolding read_limit limit_of
    read_limit_lem laws = rw (laws.int-decimal o.limit) refl

    read_search_lem : read_search o.search ≡ ensure search_fits o.search
    unfolding read_search
    read_search_lem = elim (Option-cases o.search) [ inl e ↦ rw e refl | inr (t, e) ↦ rw e refl ]

    -- Reading a dictionary that holds the parameters.
    read_found :
        (query : String) (params : Dict String)
        → Laws
        → forms.parameters query ≡ params
        → Holds v o since_dt params
        → read_filters forms query ≡ ensure let_in filters_of
    unfolding read_filters read_time
    read_found query params laws found h =
        rw
          (
            found,
            h.service,
            h.level,
            h.search,
            read_search_lem,
            h.since,
            read_time_lem laws since_dt,
            h.until,
            h.limit,
            read_limit_lem laws,
          )
          (two_tests search_fits (leb 1 o.limit && leb o.limit 1000) o.search o.limit
            (λ search limit. record {
              service = o.service;
              level = o.level;
              search = search;
              since = since_dt;
              until = none;
              limit = limit;
            }))

    -- How many characters the text to search for has.
    abbrev pub search_count : ℕ
    search_count = elim o.search [ none ↦ 0 | some t ↦ String.count t ]

    let_in_iff : (let_in ≡ true) ↔ ((1 ≤ o.limit) × (o.limit ≤ 1000) × (search_count ≤ 8192))
    let_in_iff = ground arith

    -- The API reads the search that `tail` asks for: the service, the level, the text and the limit
    -- that were given and the time since which, exactly if the limit is between 1 and 1000 and the
    -- text has at most 8192 characters; if not it answers that the request is invalid. It takes a web
    -- framework that reads back a quoted query string, a time and a number.
    pub read_filters-url :
        Laws
        → forms.parameters (query_string v o since_dt) ≡ asked v o since_dt
        → (url v o since_dt ≡ o.endpoint ^^ "/query" ^^ "?" ^^ (query_string v o since_dt))
          × ((read_filters forms (query_string v o since_dt) ≡ ret filters_of)
              ↔ ((1 ≤ o.limit) × (o.limit ≤ 1000) × (search_count ≤ 8192)))
          × ((read_filters forms (query_string v o since_dt) ≡ ret filters_of)
              ⊎ (read_filters forms (query_string v o since_dt) ≡ raise value_error))
    read_filters-url laws quoted =
        let (decides, either) =
          ensure_iff let_in filters_of (read_filters forms (query_string v o since_dt))
            (read_found (query_string v o since_dt) (asked v o since_dt) laws quoted
              (asked-Holds v o since_dt))
            let_in_iff in
        (url-query_string v o since_dt, decides, either)
