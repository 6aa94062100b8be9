-- ===== src/Consumers/LogWriter/Sorted.antt =====
-- consumers/log_writer.py: the parsing of a batch sorts every message.
use log_foundry.Prelude.{
  ◌≡◌, refl, sym, subst, ◌⊎◌, inl, inr, Bool, true, false, List, [], ◌∷◌, ◌++◌, if◌then◌else◌,
  Outcome-cases, ret, raise, Exc, All,
}
use log_foundry.Consumers.Kafka.{Message}
use log_foundry.Consumers.Payload.{Reader}
use log_foundry.Consumers.LogWriter.Row.{Row, parse}
use log_foundry.Consumers.LogWriter.Insert.{Parsed, parse_batch}

abbrev pub In : {A : Type 0} → A → List A → Type 0
In x [] = ⊥
In x (y ∷ ys) = (x ≡ y) ⊎ In x ys

-- The row and the message stand at the same place of the two lists.
abbrev pub Aligned : Row → Message → List Row → List Message → Type 0
Aligned r m (q ∷ qs) (n ∷ ns) = ((r ≡ q) × (m ≡ n)) ⊎ Aligned r m qs ns
Aligned r m _ _ = ⊥

-- A message of the batch is one of the failed ones, or its row stands beside it.
abbrev pub Sorted : Reader → Parsed → Message → Type 0
Sorted rd p m =
    ((row : Row) × (parse rd m ≡ ret row) × Aligned row m p.rows p.valid) ⊎ In m p.failed

pub All-map {ℓ κ μ} :
    {A : Type ℓ} {P : A → Type κ} {Q : A → Type μ} (xs : List A)
    → ((x : A) → P x → Q x)
    → All P xs
    → All Q xs
All-map [] f h = tt
All-map (x ∷ xs) f h = (f x h.0, All-map xs f h.1)

pub In-left : {A : Type 0} (x : A) (xs ys : List A) → In x xs → In x (xs ++ ys)
In-left x [] ys h = elim h [ ]
In-left x (z ∷ xs) ys (inl e) = inl e
In-left x (z ∷ xs) ys (inr h) = inr (In-left x xs ys h)

pub In-last : {A : Type 0} (x : A) (xs : List A) → In x (xs ++ x ∷ [])
In-last x [] = inl refl
In-last x (z ∷ xs) = inr (In-last x xs)

pub In-more :
    {A : Type 0} (x y : A) (xs : List A) (b : Bool)
    → In x xs
    → In x (if b then xs else xs ++ y ∷ [])
In-more x y xs true h = h
In-more x y xs false h = In-left x xs (y ∷ []) h

abbrev with_row : Row → Message → Parsed → Parsed
with_row row m p = record p { rows = row ∷ p.rows; valid = m ∷ p.valid }

abbrev with_failed : Message → Parsed → Parsed
with_failed m p = record p { failed = m ∷ p.failed }

module _ (rd : Reader) where
  Sorted-with_row :
      (row : Row) (m n : Message) (p : Parsed) → Sorted rd p n → Sorted rd (with_row row m p) n
  Sorted-with_row row m n p (inl (q, e, h)) = inl (q, e, inr h)
  Sorted-with_row row m n p (inr h) = inr h

  Sorted-with_failed : (m n : Message) (p : Parsed) → Sorted rd p n → Sorted rd (with_failed m p) n
  Sorted-with_failed m n p (inl h) = inl h
  Sorted-with_failed m n p (inr h) = inr (inr h)

  parse_batch-ret :
      (m : Message) (ms : List Message) (row : Row)
      → parse rd m ≡ ret row
      → parse_batch rd (m ∷ ms) ≡ with_row row m (parse_batch rd ms)
  unfolding parse_batch
  parse_batch-ret m ms row e = rw (e, parse_batch)

  parse_batch-raise :
      (m : Message) (ms : List Message) (x : Exc)
      → parse rd m ≡ raise x
      → parse_batch rd (m ∷ ms) ≡ with_failed m (parse_batch rd ms)
  unfolding parse_batch
  parse_batch-raise m ms x e = rw (e, parse_batch)

  pub parse_batch-Sorted : (ms : List Message) → All (Sorted rd (parse_batch rd ms)) ms
  parse_batch-Sorted [] = tt
  parse_batch-Sorted (m ∷ ms) = elim (Outcome-cases (parse rd m)) [
    | inl (row, e) ↦
        subst (λ p. All (Sorted rd p) (m ∷ ms)) (sym (parse_batch-ret m ms row e))
          (
            inl (row, e, inl (refl, refl)),
            All-map ms (λ n h. Sorted-with_row row m n _ h) (parse_batch-Sorted ms),
          )
    | inr (x, e) ↦
        subst (λ p. All (Sorted rd p) (m ∷ ms)) (sym (parse_batch-raise m ms x e))
          (inr (inl refl), All-map ms (λ n h. Sorted-with_failed m n _ h) (parse_batch-Sorted ms))
  ]
