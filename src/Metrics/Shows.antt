-- ===== src/Metrics/Shows.antt =====
-- api/routers/query.py: the values that `get_metrics` prints, summed.
use log_foundry.Prelude.{
  ℕ, ◌+◌, ◌≡◌, refl, sym, ap, ap₂, ◌∙◌, String, List, [], ◌∷◌, arith, Outcome, and_then-ret, ret,
  raise, ret-ne-raise, ret_inj, lookup, Option, some, none, if◌then◌else◌, All,
}
use log_foundry.Metrics.Redis.{Redis, Counters, shown_key}
use log_foundry.Metrics.Totals.{weigh, held_or_0, held}
use log_foundry.Metrics.Exposition.{
  Line, sample, sorted, int_or_0, samples, Part, key_part, hash_part, run_part, in_turn, chain,
}
use log_foundry.Metrics.Worth.{
  Choice, printed, printed-append, header_value, chosen, Reads, int_or_0-decimal, samples-printed,
  worth_all-sorted, worth_all-Perm, worth_all-shown,
}

module _ (int : String → Outcome ℕ) (reads : Reads int) where
  module _ {S : Type 0} (redis : Redis S) (w : Choice) where
    chain-counters :
        {A B : Type 0} (x : Outcome A × S) (f : A → S → Outcome B × S)
        → ((a : A) (s : S) → redis.counters (f a s).1 ≡ redis.counters s)
        → redis.counters (chain x f).1 ≡ redis.counters x.1
    chain-counters (ret a, s) f same = same a s
    chain-counters (raise e, s) f same = refl

    -- What a chain that returns went through.
    chain-ret :
        {A B : Type 0} (x : Outcome A × S) (f : A → S → Outcome B × S) (b : B)
        → (chain x f).0 ≡ ret b
        → (a : A) × (x.0 ≡ ret a) × (chain x f ≡ f a x.1)
    chain-ret (ret a, s) f b h = (a, refl, refl)
    chain-ret (raise e, s) f b h = absurd (ret-ne-raise (sym h))

    int_or_0-shown_key : (o : Option ℕ) → int_or_0 int (shown_key o) ≡ ret (held_or_0 o)
    unfolding int_or_0
    int_or_0-shown_key none = refl
    int_or_0-shown_key (some n) = int_or_0-decimal int reads n

    -- The sum of the counters that a part reads, as far as they are looked at.
    abbrev pub amount : Part → Counters → ℕ
    amount (key_part header name key) c = if w name [] then held key c.keys else 0
    amount (hash_part header name labels key) c = weigh (chosen w name labels) (c.hashes key)

    abbrev pub amounts : List Part → Counters → ℕ
    amounts [] c = 0
    amounts (part ∷ parts) c = amount part c + amounts parts c

    abbrev pub header_of : Part → List Line
    header_of (key_part header name key) = header
    header_of (hash_part header name labels key) = header

    abbrev pub HasComments : Part → Type 0
    HasComments part = printed w (header_of part) ≡ 0

    run_part-counters :
        (part : Part) (s : S) → redis.counters (run_part int redis part s).1 ≡ redis.counters s
    unfolding run_part
    run_part-counters (key_part header name key) s =
        chain-counters (redis.get key s) _ (λ a t. refl) ∙ redis.get-counters key s
    run_part-counters (hash_part header name labels key) s =
        chain-counters (redis.hgetall key s) _ (λ a t. refl) ∙ redis.hgetall-counters key s

    run_part-printed :
        (part : Part) (s : S) (lines : List Line)
        → HasComments part
        → (run_part int redis part s).0 ≡ ret lines
        → printed w lines ≡ amount part (redis.counters s)
    unfolding run_part
    run_part-printed (key_part header name key) s lines comments h =
        let (val, e, q) = chain-ret (redis.get key s) _ lines h in
        let (n, f, g) = and_then-ret (int_or_0 int val) _ lines (sym (ap (λ x. x.0) q) ∙ h) in
        ap (printed w) (sym (ret_inj g))
        ∙ printed-append w header (sample name [] n ∷ [])
        ∙ header_value (w name []) comments (
            ret_inj (
              sym f
              ∙ ap (int_or_0 int) (redis.get-ret key s val e)
              ∙ int_or_0-shown_key (lookup key (redis.counters s).keys)))
    run_part-printed (hash_part header name labels key) s lines comments h =
        let (dict, e, q) = chain-ret (redis.hgetall key s) _ lines h in
        let (more, f, g) =
          and_then-ret (samples int name labels (sorted dict)) _ lines
            (sym (ap (λ x. x.0) q) ∙ h) in
        ap (printed w) (sym (ret_inj g))
        ∙ omega (
          arith,
          printed-append w header more,
          comments,
          samples-printed int reads w name labels (sorted dict) more f,
          worth_all-sorted int reads w name labels dict,
          worth_all-Perm int reads w name labels dict _ (redis.hgetall-ret key s dict e),
          worth_all-shown int reads w name labels ((redis.counters s).hashes key),
        )

    pub in_turn-printed :
        (parts : List Part) (s : S) (lines : List Line)
        → All HasComments parts
        → (in_turn int redis parts s).0 ≡ ret lines
        → printed w lines ≡ amounts parts (redis.counters s)
    unfolding in_turn
    in_turn-printed [] s lines comments h = ap (printed w) (sym (ret_inj h))
    in_turn-printed (part ∷ parts) s lines (here, there) h =
        let (first, e, q) = chain-ret (run_part int redis part s) _ lines h in
        let s' = (run_part int redis part s).1 in
        let (rest, e', q') =
          chain-ret (in_turn int redis parts s') _ lines (sym (ap (λ x. x.0) q) ∙ h) in
        ap (printed w) (sym (ret_inj (sym (ap (λ x. x.0) q') ∙ sym (ap (λ x. x.0) q) ∙ h)))
        ∙ printed-append w first rest
        ∙ ap₂ (λ a b. a + b) (run_part-printed part s first here e)
            (in_turn-printed parts s' rest there e' ∙ ap (amounts parts) (run_part-counters part s))
