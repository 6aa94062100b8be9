-- ===== src/Gateway/Ensure.antt =====
-- api/models.py: several tests in a row are a single one.
use log_foundry.Prelude.{
  true-ne-false, ◌≤◌, ◌≡◌, ◌↔◌, ◌⊎◌, inl, inr, refl, sym, ◌∙◌, String, Bool, true, false, ◌&&◌, leb,
  Option, List, length, Outcome, and_then, ret, raise, value_error, ret-ne-raise, arith,
}
use log_foundry.Consumers.Payload.{Fields}
use log_foundry.Gateway.Models.{LogEvent, ensure}

pub four_tests :
    (is_a is_b is_c is_d : Bool) (service level message : String) (metadata : Option Fields)
    (make : String → String → String → Option Fields → LogEvent)
    → and_then (ensure is_a service) (λ s. and_then (ensure is_b level) (λ l.
      and_then
        (ensure is_c message)
        (λ m. and_then (ensure is_d metadata) (λ d. ret (make s l m d)))))
      ≡ ensure (is_a && (is_b && (is_c && is_d))) (make service level message metadata)
four_tests false is_b is_c is_d service level message metadata make = refl
four_tests true false is_c is_d service level message metadata make = refl
four_tests true true false is_d service level message metadata make = refl
four_tests true true true false service level message metadata make = refl
four_tests true true true true service level message metadata make = refl

pub two_tests :
    {A B C : Type 0} (is_a is_b : Bool) (a : A) (b : B) (make : A → B → C)
    → and_then (ensure is_a a) (λ x. and_then (ensure is_b b) (λ y. ret (make x y)))
      ≡ ensure (is_a && is_b) (make a b)
two_tests false is_b a b make = refl
two_tests true false a b make = refl
two_tests true true a b make = refl

pub and_true : {a b : Bool} → (a && b) ≡ true → (a ≡ true) × (b ≡ true)
and_true {a} {b} h = ground arith

-- What a single test decides.
pub ensure_iff :
    {A P : Type 0} (ok : Bool) (a : A) (o : Outcome A)
    → o ≡ ensure ok a
    → (ok ≡ true) ↔ P
    → ((o ≡ ret a) ↔ P) × ((o ≡ ret a) ⊎ (o ≡ raise value_error))
ensure_iff true a o h k = ((λ e. k.0 refl, λ p. h), inl h)
ensure_iff false a o h k =
    ((λ e. absurd (ret-ne-raise (sym e ∙ h)), λ p. absurd (true-ne-false (sym (k.1 p)))), inr h)

abbrev pub sized : {A : Type 0} → List A → Bool
sized found = leb 1 (length found) && leb (length found) 1000

pub sized_iff :
    {A : Type 0} (found : List A)
    → (sized found ≡ true) ↔ ((1 ≤ length found) × (length found ≤ 1000))
sized_iff found = ground arith

-- A batch is tested twice.
pub bound_test :
    {A : Type 0} (ok : Bool) (found : List A)
    → and_then (ensure ok found) (λ found. ensure (sized found) found)
      ≡ ensure (ok && sized found) found
bound_test true found = refl
bound_test false found = refl
