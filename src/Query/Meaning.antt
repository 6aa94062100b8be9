-- ===== src/Query/Meaning.antt =====
-- api/routers/query.py: what the statement of `_build_query` asks for.
use log_foundry.Prelude.{
  ℕ, zero, suc, ◌≡◌, refl, ap, ap₂, sym, ◌∙◌, String, Bool, true, false, ◌&&◌, leb, ltb, str_eq,
  Option, none, some, List, [], ◌∷◌, ◌++◌, append_assoc, length, length-snoc, arith,
}
use log_foundry.Query.Build.{
  Filters, Param, text, instant, count, Condition, service_is, level_is, message_matches,
  not_before, before, Built, add, build, build_query,
}

-- The columns that a search reads; none of them can be NULL.
pub record Row : Type 0 where
  pub service : String
  pub level : String
  pub message : String
  pub timestamp : ℕ

-- The parameter of placeholder `$(n + 1)`.
abbrev pub nth : List Param → ℕ → Option Param
nth [] n = none
nth (p ∷ ps) zero = some p
nth (p ∷ ps) (suc n) = nth ps n

abbrev pub placeholder : List Param → ℕ → Option Param
placeholder ps zero = none
placeholder ps (suc n) = nth ps n

abbrev text_test : Option Param → (String → Bool) → Bool
text_test (some (text t)) f = f t
text_test _ f = false

abbrev instant_test : Option Param → (ℕ → Bool) → Bool
instant_test (some (instant t)) f = f t
instant_test _ f = false

and_true : (b : Bool) → (b && true) ≡ b
and_true b = ground arith

-- Full-text search is PostgreSQL's.
module _ (matches : String → String → Bool) where
  -- A row meets a condition, with the values of the placeholders.
  abbrev pub meets : Row → List Param → Condition → Bool
  meets row ps (service_is n) = text_test (placeholder ps n) (λ t. str_eq row.service t)
  meets row ps (level_is n) = text_test (placeholder ps n) (λ t. str_eq row.level t)
  meets row ps (message_matches n) = text_test (placeholder ps n) (λ t. matches row.message t)
  meets row ps (not_before n) = instant_test (placeholder ps n) (λ t. leb t row.timestamp)
  meets row ps (before n) = instant_test (placeholder ps n) (λ t. ltb row.timestamp t)

  abbrev pub meets_all : Row → List Param → List Condition → Bool
  meets_all row ps [] = true
  meets_all row ps (c ∷ cs) = meets row ps c && meets_all row ps cs

  abbrev on : {A : Type 0} → Option A → (A → Bool) → Bool
  on none test = true
  on (some x) test = test x

  -- What the parameters of the search ask for: the filters that are given, `since` inclusive and
  -- `until` exclusive.
  abbrev pub wanted : Filters → Row → Bool
  wanted f row =
      on f.service (λ t. str_eq row.service t)
      && on f.level (λ t. str_eq row.level t)
      && on f.search (λ t. matches row.message t)
      && on f.since (λ t. leb t row.timestamp)
      && on f.until (λ t. ltb row.timestamp t)

  meets_all-append :
      (row : Row) (ps : List Param) (cs : List Condition) (c : Condition)
      → meets_all row ps (cs ++ c ∷ []) ≡ (meets_all row ps cs && meets row ps c)
  meets_all-append row ps [] c = ground arith
  meets_all-append row ps (d ∷ cs) c = ground (arith, meets_all-append row ps cs c)

  nth-middle :
      (ps : List Param) (p : Param) (more : List Param) → nth (ps ++ p ∷ more) (length ps) ≡ some p
  nth-middle [] p more = refl
  nth-middle (q ∷ ps) p more = nth-middle ps p more

  -- The conditions so far, with the parameters so far and whatever comes after them.
  record Sound (row : Row) (want : Bool) (b : Built) : Type 0 where
    next : b.param_idx ≡ suc (length b.params)
    rows : (more : List Param) → meets_all row (b.params ++ more) b.conditions ≡ want

  module _ {A : Type 0} (condition : ℕ → Condition) (param : A → Param) (row : Row)
      (test : A → Bool)
      (reads : (ps : List Param) (n : ℕ) (x : A)
        → nth ps n ≡ some (param x)
        → meets row ps (condition (suc n)) ≡ test x) where
    add-Sound :
        (x : Option A) (want : Bool) (b : Built)
        → Sound row want b
        → Sound row (want && on x test) (add x condition param b)
    unfolding add
    add-Sound none want b h = record {
      next = h.next;
      rows = λ more. h.rows more ∙ sym (and_true want);
    }
    add-Sound (some x) want b h = record {
      next = ap (λ n. suc n) (h.next ∙ sym (length-snoc b.params (param x)));
      rows = λ more.
          meets_all-append row (b.params ++ param x ∷ [] ++ more) b.conditions
            (condition b.param_idx)
          ∙ ap₂ (λ u v. u && v)
              (ap (λ l. meets_all row l b.conditions) (append_assoc b.params (param x ∷ []) more)
                ∙ h.rows (param x ∷ more))
              (ap (λ n. meets row (b.params ++ param x ∷ [] ++ more) (condition n)) h.next
                ∙ reads (b.params ++ param x ∷ [] ++ more) (length b.params) x (
                    ap (λ l. nth l (length b.params)) (append_assoc b.params (param x ∷ []) more)
                    ∙ nth-middle b.params (param x) more));
    }

  build-Sound : (f : Filters) (row : Row) → Sound row (wanted f row) (build f)
  unfolding build
  build-Sound f row =
      let s₀ : Sound row true (record { conditions = []; params = []; param_idx = 1 }) = record {
        next = refl;
        rows = λ more. refl;
      } in
      let s₁ =
        add-Sound service_is text row (λ t. str_eq row.service t) (λ ps n x e. rw e) f.service true
          _ s₀ in
      let s₂ =
        add-Sound level_is text row (λ t. str_eq row.level t) (λ ps n x e. rw e) f.level _ _ s₁ in
      let s₃ =
        add-Sound message_matches text row (λ t. matches row.message t) (λ ps n x e. rw e) f.search
          _ _ s₂ in
      let s₄ =
        add-Sound not_before instant row (λ t. leb t row.timestamp) (λ ps n x e. rw e) f.since _ _
          s₃ in
      add-Sound before instant row (λ t. ltb row.timestamp t) (λ ps n x e. rw e) f.until _ _ s₄

  -- The statement asks for what the search asks for. A row meets its conditions, read with its
  -- parameters, exactly if it passes the filters that are given, `since` inclusive and `until`
  -- exclusive, with any full-text search; and its limit is the placeholder of the limit that was
  -- asked for, which is the last parameter.
  pub build_query_lem :
      (f : Filters) (row : Row)
      → (meets_all row (build_query f).1 (build_query f).0.conditions ≡ wanted f row)
        × (placeholder (build_query f).1 (build_query f).0.limit ≡ some (count f.limit))
        × (length (build_query f).1 ≡ (build_query f).0.limit)
  unfolding build_query
  build_query_lem f row =
      let b = build f in
      let s = build-Sound f row in
      (
        s.rows (count f.limit ∷ []),
        ap (λ n. placeholder (b.params ++ count f.limit ∷ []) n) s.next
            ∙ nth-middle b.params (count f.limit) [],
        length-snoc b.params (count f.limit) ∙ sym s.next,
      )
