-- ===== src/Metrics/Split.antt =====
-- api/routers/query.py: the key of a service and a level, and its parts.
use log_foundry.Prelude.{
  ℕ, suc, ◌+◌, ◌==◌, ◌≡◌, refl, ap, ◌∙◌, ◌⊎◌, String, ◌^^◌, List, [], ◌∷◌, length, arith,
  if◌then◌else◌, some, none, zero, inl, inr,
}
use text.Mathlib.TextLemmas.{nil-append, cons-append}
use Prim.Native.Char.{Char, code}
use log_foundry.Metrics.Exposition.{split, to_first, labels_of_parts, both_labels}

-- The colons of a text.
abbrev pub colons : String → ℕ
colons String.[] = 0
colons (String.◌∷◌ c t) = let more = colons t in if code c == 58 then suc more else more

colons-append : (s t : String) → colons (s ^^ t) ≡ colons s + colons t
colons-append String.[] t = omega (arith, ap colons (nil-append t))
colons-append (String.◌∷◌ c s) t = ap colons (cons-append c s t) ∙ ground (arith, colons-append s t)

length-to_first : (c : Char) (parts : List String) → length (to_first c parts) ≡ length parts
length-to_first c [] = refl
length-to_first c (part ∷ parts) = refl

length-split : (t : String) → length (split t) ≡ suc (colons t)
unfolding split
length-split String.[] = refl
length-split (String.◌∷◌ c t) = ground (arith, length-split t, length-to_first c (split t))

split_plain : (t : String) → colons t ≡ 0 → split t ≡ t ∷ []
unfolding split
split_plain String.[] h = refl
split_plain (String.◌∷◌ c t) h = ground (arith, split_plain t)

split_behind_colon : (t : String) → split (":" ^^ t) ≡ "" ∷ split t
unfolding split
split_behind_colon t = ap split (cons-append ":" "" t ∙ ap (λ u. String.◌∷◌ ":" u) (nil-append t))

split_at_colon : (s t : String) → colons s ≡ 0 → colons t ≡ 0 → split (s ^^ ":" ^^ t) ≡ s ∷ t ∷ []
unfolding split
split_at_colon String.[] t h g =
    ap split (nil-append (":" ^^ t)) ∙ split_behind_colon t ∙ ap (λ l. "" ∷ l) (split_plain t g)
split_at_colon (String.◌∷◌ c s) t h g =
    ap split (cons-append c s (":" ^^ t)) ∙ ground (arith, split_at_colon s t)

-- More than two parts have no labels.
labels_of_parts_lem :
    (parts : List String) (n : ℕ) → length parts ≡ suc (suc (suc n)) → labels_of_parts parts ≡ none
labels_of_parts_lem [] n h = absurd (omega arith)
labels_of_parts_lem (a ∷ []) n h = absurd (omega arith)
labels_of_parts_lem (a ∷ b ∷ []) n h = absurd (omega arith)
labels_of_parts_lem (a ∷ b ∷ c ∷ parts) n h = refl

length-split-key :
    (service level : String)
    → length (split (service ^^ ":" ^^ level)) ≡ suc (suc (colons service + colons level))
length-split-key service level = omega (
  arith,
  length-split (service ^^ ":" ^^ level),
  colons-append service (":" ^^ level),
  colons-append ":" level,
)

zero-cases : (n : ℕ) → (n ≡ 0) ⊎ ((m : ℕ) × (n ≡ suc m))
zero-cases zero = inl refl
zero-cases (suc m) = inr (m, refl)

-- The key of a service and a level is printed under exactly these two labels if neither holds a
-- colon, and is left out otherwise.
pub both_labels-key :
    (service level : String)
    → both_labels (service ^^ ":" ^^ level) ≡ (
        if colons service + colons level == 0
        then some (("service", service) ∷ ("level", level) ∷ [])
        else none)
unfolding both_labels
both_labels-key service level = elim (zero-cases (colons service + colons level)) [
  | inl e ↦
      ap labels_of_parts (split_at_colon service level (omega arith) (omega arith)) ∙ ground arith
  | inr (n, e) ↦
      labels_of_parts_lem (split (service ^^ ":" ^^ level)) n
        (omega (arith, length-split-key service level))
      ∙ ground arith
]
