-- ===== src/Query/Typed.antt =====
-- api/routers/query.py: the types of the parameters of the statement, which the database checks
-- before it runs it.
use log_foundry.Prelude.{
  ℕ, zero, suc, ◌+◌, ◌≡◌, refl, sym, ap, ap₂, ◌∙◌, Option, none, some, List, [], ◌∷◌, ◌++◌, length,
  length-append, length-snoc, map, map-snoc, arith,
}
use log_foundry.Query.Build.{
  Filters, Param, text, instant, count, Condition, service_is, level_is, message_matches,
  not_before, before, Built, Statement, add, build, build_query,
}

-- The types of the columns of `logs`, and of LIMIT.
pub data SqlType : Type 0 where
  varchar timestamptz bigint : SqlType

-- The type that a value of Python is sent as.
abbrev pub type_of : Param → SqlType
type_of (text t) = varchar
type_of (instant t) = timestamptz
type_of (count n) = bigint

-- The type that a condition wants of its placeholder, and the number of it.
abbrev pub sql_type : Condition → SqlType
sql_type (service_is n) = varchar
sql_type (level_is n) = varchar
sql_type (message_matches n) = varchar
sql_type (not_before n) = timestamptz
sql_type (before n) = timestamptz

abbrev pub number_of : Condition → ℕ
number_of (service_is n) = n
number_of (level_is n) = n
number_of (message_matches n) = n
number_of (not_before n) = n
number_of (before n) = n

-- The numbers `first`, `first + 1`, …
abbrev pub numbers : ℕ → ℕ → List ℕ
numbers first zero = []
numbers first (suc n) = first ∷ numbers (suc first) n

-- Each placeholder stands once, in the order of the parameters, and gets a value of its type.
pub record IsTyped (q : Statement) (params : List Param) : Type 0 where
  pub placeholders : map number_of q.conditions ++ q.limit ∷ [] ≡ numbers 1 (length params)
  pub types : map sql_type q.conditions ++ bigint ∷ [] ≡ map type_of params

-- The same of what is built so far, which the limit is to follow.
record IsBuilt (b : Built) : Type 0 where
  placeholders : map number_of b.conditions ≡ numbers 1 (length b.params)
  types : map sql_type b.conditions ≡ map type_of b.params
  next : b.param_idx ≡ suc (length b.params)

numbers-snoc : (first n : ℕ) → numbers first (suc n) ≡ numbers first n ++ (first + n) ∷ []
numbers-snoc first zero = ap (λ n. n ∷ []) (omega arith)
numbers-snoc first (suc n) =
    ap (λ l. first ∷ l)
      (numbers-snoc (suc first) n ∙ ap (λ k. numbers (suc first) n ++ k ∷ []) (omega arith))

numbers_more : (n : ℕ) → numbers 1 (suc n) ≡ numbers 1 n ++ suc n ∷ []
numbers_more n = numbers-snoc 1 n ∙ ap (λ k. numbers 1 n ++ k ∷ []) (omega arith)

add-IsBuilt :
    {A : Type 0} (o : Option A) (condition : ℕ → Condition) (param : A → Param) (b : Built)
    → ((n : ℕ) → number_of (condition n) ≡ n)
    → ((n : ℕ) (a : A) → sql_type (condition n) ≡ type_of (param a))
    → IsBuilt b
    → IsBuilt (add o condition param b)
unfolding add
add-IsBuilt none condition param b own same i = i
add-IsBuilt (some a) condition param b own same i = record {
  placeholders =
      map-snoc number_of b.conditions (condition b.param_idx)
      ∙ ap₂ (λ l n. l ++ n ∷ []) i.placeholders (own b.param_idx ∙ i.next)
      ∙ sym (numbers_more (length b.params))
      ∙ ap (numbers 1) (sym (length-snoc b.params (param a)));
  types =
      map-snoc sql_type b.conditions (condition b.param_idx)
      ∙ ap₂ (λ l k. l ++ k ∷ []) i.types (same b.param_idx a)
      ∙ sym (map-snoc type_of b.params (param a));
  next = omega (arith, i.next, length-append b.params (param a ∷ []));
}

build-IsBuilt : (f : Filters) → IsBuilt (build f)
unfolding build
build-IsBuilt f =
    add-IsBuilt f.until before instant _ (λ n. refl) (λ n a. refl)
      (add-IsBuilt f.since not_before instant _ (λ n. refl) (λ n a. refl)
        (add-IsBuilt f.search message_matches text _ (λ n. refl) (λ n a. refl)
          (add-IsBuilt f.level level_is text _ (λ n. refl) (λ n a. refl)
            (add-IsBuilt f.service service_is text _ (λ n. refl) (λ n a. refl)
              (record { placeholders = refl; types = refl; next = refl })))))

build_at :
    (limit : ℕ) (b : Built)
    → IsBuilt b
    → IsTyped
        (record { conditions = b.conditions; limit = b.param_idx })
        (b.params ++ count limit ∷ [])
build_at limit b i = record {
  placeholders =
      ap₂ (λ l n. l ++ n ∷ []) i.placeholders i.next
      ∙ sym (numbers_more (length b.params))
      ∙ ap (numbers 1) (sym (length-snoc b.params (count limit)));
  types = ap (λ l. l ++ bigint ∷ []) i.types ∙ sym (map-snoc type_of b.params (count limit));
}

-- Every statement of a search is well typed: its placeholders are numbered from one on, without a gap
-- and each once, there are as many as parameters, and each gets a value of the type that its
-- condition, or LIMIT, wants.
pub build_query-IsTyped : (f : Filters) → IsTyped (build_query f).0 (build_query f).1
unfolding build_query
build_query-IsTyped f = build_at f.limit (build f) (build-IsBuilt f)
