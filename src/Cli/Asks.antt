-- ===== src/Cli/Asks.antt =====
-- sdk/cli.py and api/routers/query.py: the search that `tail` asks for is the one that the API reads.
use log_foundry.Prelude.{
  ℕ, ◌≡◌, inl, inr, refl, ap, ◌∙◌, String, ◌^^◌, decimal, true, false, str_eq, Option, none, some,
  List, [], ◌∷◌, map, Dict, lookup, Option-cases,
}
use log_foundry.Cli.Tail.{Options, Services, query_part, join_amp, url}

-- The parameters of a search, without their quotes.
abbrev pub given : {A : Type 0} → String → Option A → (A → String) → Dict String → Dict String
given name none show rest = rest
given name (some v) show rest = (name, show v) ∷ rest

abbrev pub same : String → String
same t = t

lookup-given_other :
    {A : Type 0} (name asked : String) (o : Option A) (show : A → String) (rest : Dict String)
    → str_eq name asked ≡ false
    → lookup asked (given name o show rest) ≡ lookup asked rest
unfolding lookup
lookup-given_other name asked none show rest e = refl
lookup-given_other name asked (some x) show rest e = rw e refl

module _ {S : Type 0} (v : Services S) where
  abbrev pub pair_text : String × String → String
  pair_text (name, value) = name ^^ "=" ^^ v.quote value

  query_part-given :
      {A : Type 0} (name : String) (o : Option A) (show : A → String) (rest : Dict String)
      → query_part name o (λ x. v.quote (show x)) (map pair_text rest)
        ≡ map pair_text (given name o show rest)
  query_part-given name none show rest = refl
  query_part-given name (some x) show rest = refl

  module _ (o : Options) (since_dt : Option ℕ) where
    abbrev last_pair : Dict String
    last_pair = ("limit", decimal o.limit) ∷ []

    abbrev from_since : Dict String
    from_since = given "since" since_dt v.isoformat last_pair

    abbrev from_search : Dict String
    from_search = given "search" o.search same from_since

    abbrev from_level : Dict String
    from_level = given "level" o.level same from_search

    abbrev pub asked : Dict String
    asked = given "service" o.service same from_level

    abbrev pub query_string : String
    query_string = join_amp (map pair_text asked)

    abbrev part : String → Option String → List String → List String
    part name x rest = query_part name x v.quote rest

    pub url-query_string : url v o since_dt ≡ o.endpoint ^^ "/query" ^^ "?" ^^ query_string
    unfolding url
    url-query_string =
        ap (λ parts. o.endpoint ^^ "/query" ^^ "?" ^^ join_amp parts)
          (ap (λ l. part "service" o.service (part "level" o.level (part "search" o.search l)))
              (query_part-given "since" since_dt v.isoformat last_pair)
            ∙ ap (λ l. part "service" o.service (part "level" o.level l))
                (query_part-given "search" o.search same _)
            ∙ ap (part "service" o.service) (query_part-given "level" o.level same _)
            ∙ query_part-given "service" o.service same _)

    abbrev pub time_text : Option ℕ → Option String
    time_text none = none
    time_text (some n) = some (v.isoformat n)

    found_last : (name : String) → str_eq "limit" name ≡ false → lookup name last_pair ≡ none
    unfolding lookup
    found_last name e = rw e refl

    found_since : lookup "since" (given "since" since_dt v.isoformat last_pair) ≡ time_text since_dt
    unfolding lookup
    found_since = elim (Option-cases since_dt) [ inl e ↦ rw e refl | inr (t, e) ↦ rw e refl ]

    found_text :
        (name : String) (x : Option String) (rest : Dict String)
        → str_eq name name ≡ true
        → lookup name rest ≡ none
        → lookup name (given name x same rest) ≡ x
    unfolding lookup
    found_text name none rest e absent = absent
    found_text name (some t) rest e absent = rw e refl

    skip_service :
        (name : String) → str_eq "service" name ≡ false → lookup name asked ≡ lookup name from_level
    skip_service name e = lookup-given_other "service" name o.service same from_level e

    skip_level :
        (name : String)
        → str_eq "level" name ≡ false
        → lookup name from_level ≡ lookup name from_search
    skip_level name e = lookup-given_other "level" name o.level same from_search e

    skip_search :
        (name : String)
        → str_eq "search" name ≡ false
        → lookup name from_search ≡ lookup name from_since
    skip_search name e = lookup-given_other "search" name o.search same from_since e

    skip_since :
        (name : String)
        → str_eq "since" name ≡ false
        → lookup name from_since ≡ lookup name last_pair
    skip_since name e = lookup-given_other "since" name since_dt v.isoformat last_pair e

    all_skipped :
        (name : String)
        → str_eq "service" name ≡ false
        → str_eq "level" name ≡ false
        → str_eq "search" name ≡ false
        → str_eq "since" name ≡ false
        → lookup name asked ≡ lookup name last_pair
    all_skipped name a b c d =
        skip_service name a ∙ skip_level name b ∙ skip_search name c ∙ skip_since name d

    -- A dictionary with these parameters.
    pub record Holds (params : Dict String) : Type 0 where
      pub service : lookup "service" params ≡ o.service
      pub level : lookup "level" params ≡ o.level
      pub search : lookup "search" params ≡ o.search
      pub since : lookup "since" params ≡ time_text since_dt
      pub until : lookup "until" params ≡ none
      pub limit : lookup "limit" params ≡ some (decimal o.limit)

    pub asked-Holds : Holds asked
    unfolding lookup
    asked-Holds = record {
      service =
          found_text "service" o.service from_level refl
            (skip_level "service" refl ∙ skip_search "service" refl ∙ skip_since "service" refl);
      level =
          skip_service "level" refl
          ∙ found_text "level" o.level from_search refl
              (skip_search "level" refl ∙ skip_since "level" refl);
      search =
          skip_service "search" refl
          ∙ skip_level "search" refl
          ∙ found_text "search" o.search from_since refl (skip_since "search" refl);
      since =
          skip_service "since" refl
          ∙ skip_level "since" refl
          ∙ skip_search "since" refl
          ∙ found_since;
      until = all_skipped "until" refl refl refl refl ∙ refl;
      limit = all_skipped "limit" refl refl refl refl ∙ refl;
    }
