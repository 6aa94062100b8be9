-- ===== src/Metrics/Sample.antt =====
-- A concrete `int`, and a Redis whose state is its counters.
use log_foundry.Prelude.{
  ℕ, zero, suc, ◌+◌, ◌-◌, ◌*◌, ◌/◌, ◌%◌, ◌<◌, ◌≤◌, ◌≡◌, refl, sym, ap, ◌∙◌, String, ◌^^◌, decimal,
  digit_text, decimal_fuel, ltb, map, arith, lookup, Outcome, ret, raise, value_error, false,
  ret_inj, subst, Bool-cases, inl, inr, ltb→lt,
}
use Prim.Native.Char.{code}
use text.Mathlib.TextLemmas.{nil-append, cons-append}
use mathlib.Core.List.{Perm}
use mathlib.Core.List.Perm
use log_foundry.Metrics.Redis.{Redis, Counters, obey_all, shown, shown_key}
use log_foundry.Metrics.Worth.{Reads}

-- The number of a text of digits that follows `acc`.
abbrev value : ℕ → String → ℕ
value acc String.[] = acc
value acc (String.◌∷◌ c t) = value (10 * acc + (code c - 48)) t

value-append : (acc : ℕ) (s t : String) → value acc (s ^^ t) ≡ value (value acc s) t
value-append acc String.[] t = ap (value acc) (nil-append t)
value-append acc (String.◌∷◌ c s) t =
    ap (value acc) (cons-append c s t) ∙ value-append (10 * acc + (code c - 48)) s t

value_digit : (acc d : ℕ) → d < 10 → value acc (digit_text d) ≡ 10 * acc + d
value_digit acc zero h = refl
value_digit acc (suc zero) h = refl
value_digit acc (suc (suc zero)) h = refl
value_digit acc (suc (suc (suc zero))) h = refl
value_digit acc (suc (suc (suc (suc zero)))) h = refl
value_digit acc (suc (suc (suc (suc (suc zero))))) h = refl
value_digit acc (suc (suc (suc (suc (suc (suc zero)))))) h = refl
value_digit acc (suc (suc (suc (suc (suc (suc (suc zero))))))) h = refl
value_digit acc (suc (suc (suc (suc (suc (suc (suc (suc zero)))))))) h = refl
value_digit acc (suc (suc (suc (suc (suc (suc (suc (suc (suc zero))))))))) h = refl
value_digit acc (suc (suc (suc (suc (suc (suc (suc (suc (suc (suc d)))))))))) h =
    absurd (omega arith)

ltb→ge : (a b : ℕ) → ltb a b ≡ false → b ≤ a
ltb→ge a b h = ground arith

fewer : (n fuel : ℕ) → 10 ≤ n → n < suc fuel → n / 10 < fuel
fewer n fuel h g = omega arith

more_digits : (n m : ℕ) → 10 ≤ n → m ≡ n / 10 → 10 * m + n % 10 ≡ n
more_digits n m h e = omega arith

value-decimal_fuel : (fuel n : ℕ) → n < fuel → value 0 (decimal_fuel fuel n) ≡ n
unfolding decimal_fuel
value-decimal_fuel zero n h = absurd (omega arith)
value-decimal_fuel (suc fuel) n h = elim (Bool-cases (ltb n 10)) [
  | inl e ↦ rw e (value_digit 0 n (ltb→lt n 10 e) ∙ omega arith)
  | inr e ↦ rw e (
      value-append 0 (decimal_fuel fuel (n / 10)) (digit_text (n % 10))
      ∙ value_digit _ (n % 10) (omega arith)
      ∙ more_digits n _ (ltb→ge n 10 e)
          (value-decimal_fuel fuel (n / 10) (fewer n fuel (ltb→ge n 10 e) h)))
]

value-pos : (acc : ℕ) (t : String) → 1 ≤ acc → 1 ≤ value acc t
value-pos acc String.[] h = h
value-pos acc (String.◌∷◌ c t) h = value-pos (10 * acc + (code c - 48)) t (omega arith)

-- What is written has a digit at least.
value_of_one : (n : ℕ) → 10 ≤ value 1 (decimal n)
unfolding decimal decimal_fuel
value_of_one n = elim (Bool-cases (ltb n 10)) [
  | inl e ↦ rw e (omega (arith, value_digit 1 n (ltb→lt n 10 e)))
  | inr e ↦ rw e (
      omega (
        arith,
        value-append 1 (decimal_fuel n (n / 10)) (digit_text (n % 10)),
        value_digit (value 1 (decimal_fuel n (n / 10))) (n % 10) (omega arith),
        value-pos 1 (decimal_fuel n (n / 10)) (omega arith),
      ))
]

abbrev pub int : String → Outcome ℕ
int String.[] = raise value_error
int (String.◌∷◌ c t) = ret (value 0 (String.◌∷◌ c t))

int-value : (t : String) → 10 ≤ value 1 t → int t ≡ ret (value 0 t)
int-value String.[] h = absurd (omega arith)
int-value (String.◌∷◌ c t) h = refl

pub int-Reads : Reads int
unfolding decimal
int-Reads = record {
  int-decimal = λ n.
      int-value (decimal n) (value_of_one n)
      ∙ ap (λ m. ret m) (value-decimal_fuel (suc n) n (omega arith));
  int_empty = refl;
}

abbrev pub server : Redis Counters
server = record {
  execute = λ commands c. (ret tt, obey_all commands c);
  get = λ key c. (ret (shown_key (lookup key c.keys)), c);
  hgetall = λ key c. (ret (map shown (c.hashes key)), c);
  counters = λ c. c;
  execute-counters = λ commands c h. refl;
  get-counters = λ key c. refl;
  get-ret = λ key c o h. sym (ret_inj h);
  hgetall-counters = λ key c. refl;
  hgetall-ret = λ key c dict h. subst (λ d. Perm d (map shown (c.hashes key))) (ret_inj h) Perm.rfl;
}
