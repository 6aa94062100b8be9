-- ===== src/Query/Build.antt =====
-- api/routers/query.py: `_build_query`.
use log_foundry.Prelude.{ℕ, suc, String, Option, none, some, List, [], ◌∷◌, ◌++◌, ◌^^◌, decimal}

-- The parameters of a search. A time is an instant.
pub record Filters : Type 0 where
  pub service : Option String
  pub level : Option String
  pub search : Option String
  pub since : Option ℕ
  pub until : Option ℕ
  pub limit : ℕ

-- The values that go with the statement.
pub data Param : Type 0 where
  text : String → Param
  instant : ℕ → Param
  count : ℕ → Param

-- A condition, by the number of its placeholder.
pub data Condition : Type 0 where
  service_is level_is message_matches not_before before : ℕ → Condition

unfoldable pub print : Condition → String
print (service_is n) = "service = $" ^^ decimal n
print (level_is n) = "level = $" ^^ decimal n
print (message_matches n) =
    "to_tsvector('english', message) @@ plainto_tsquery('english', $" ^^ decimal n ^^ ")"
print (not_before n) = "timestamp >= $" ^^ decimal n
print (before n) = "timestamp < $" ^^ decimal n

-- `" AND ".join(…)`
unfoldable pub join_and : List Condition → String
unfolding print
join_and [] = ""
join_and (c ∷ []) = print c
join_and (c ∷ d ∷ cs) = print c ^^ " AND " ^^ join_and (d ∷ cs)

unfoldable pub where_clause : List Condition → String
unfolding join_and
where_clause [] = "TRUE"
where_clause (c ∷ cs) = join_and (c ∷ cs)

-- `conditions`, `params` and `param_idx`
pub record Built : Type 0 where
  pub conditions : List Condition
  pub params : List Param
  pub param_idx : ℕ

-- `if x is not None: …`
unfoldable pub add : {A : Type 0} → Option A → (ℕ → Condition) → (A → Param) → Built → Built
add none condition param b = b
add (some x) condition param b = record {
  conditions = b.conditions ++ condition b.param_idx ∷ [];
  params = b.params ++ param x ∷ [];
  param_idx = suc b.param_idx;
}

unfoldable pub build : Filters → Built
unfolding add
build f =
    let b₀ : Built = record { conditions = []; params = []; param_idx = 1 } in
    let b₁ = add f.service service_is text b₀ in
    let b₂ = add f.level level_is text b₁ in
    let b₃ = add f.search message_matches text b₂ in
    let b₄ = add f.since not_before instant b₃ in add f.until before instant b₄

-- The statement, by its conditions and the placeholder of its limit.
pub record Statement : Type 0 where
  pub conditions : List Condition
  pub limit : ℕ

unfoldable pub print_statement : Statement → String
unfolding where_clause
print_statement q =
    "SELECT id, service, level, message, timestamp, trace_id, metadata FROM logs WHERE "
    ^^ where_clause q.conditions
    ^^ " ORDER BY timestamp DESC LIMIT $"
    ^^ decimal q.limit

unfoldable pub build_query : Filters → Statement × List Param
unfolding build
build_query f =
    let b = build f in
    (record { conditions = b.conditions; limit = b.param_idx }, b.params ++ count f.limit ∷ [])
