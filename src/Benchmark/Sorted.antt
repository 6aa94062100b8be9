-- ===== src/Benchmark/Sorted.antt =====
-- scripts/benchmark_throughput.py: the sorted latencies.
use log_foundry.Prelude.{
  ℕ, zero, suc, ◌+◌, ◌≤◌, ◌<◌, ◌≡◌, refl, ap, ◌∙◌, Bool, leb, if◌then◌else◌, List, [], ◌∷◌, length,
  All, ret, arith, Bool-cases, inl, inr,
}
use log_foundry.Benchmark.Report.{insert_sorted, sort, get_elem}

-- How many numbers pass a test.
abbrev pub count_by : (ℕ → Bool) → List ℕ → ℕ
count_by p [] = 0
count_by p (x ∷ xs) = (if p x then 1 else 0) + count_by p xs

abbrev pub IsSorted : List ℕ → Type 0
IsSorted [] = Unit
IsSorted (x ∷ xs) = All (λ y. x ≤ y) xs × IsSorted xs

count_by-insert_sorted :
    (p : ℕ → Bool) (x : ℕ) (ys : List ℕ)
    → count_by p (insert_sorted x ys) ≡ (if p x then 1 else 0) + count_by p ys
unfolding insert_sorted
count_by-insert_sorted p x [] = refl
count_by-insert_sorted p x (y ∷ ys) = ground (arith, count_by-insert_sorted p x ys)

pub count_by-sort : (p : ℕ → Bool) (xs : List ℕ) → count_by p (sort xs) ≡ count_by p xs
unfolding sort
count_by-sort p [] = refl
count_by-sort p (x ∷ xs) =
    count_by-insert_sorted p x (sort xs) ∙ ap (λ n. (if p x then 1 else 0) + n) (count_by-sort p xs)

All-le : (x y : ℕ) (zs : List ℕ) → x ≤ y → All (λ z. y ≤ z) zs → All (λ z. x ≤ z) zs
All-le x y [] h a = tt
All-le x y (z ∷ zs) h (b, a) = (omega arith, All-le x y zs h a)

All-insert_sorted :
    (b x : ℕ) (ys : List ℕ) → b ≤ x → All (λ y. b ≤ y) ys → All (λ y. b ≤ y) (insert_sorted x ys)
unfolding insert_sorted
All-insert_sorted b x [] h a = (h, tt)
All-insert_sorted b x (y ∷ ys) h (c, a) = elim (Bool-cases (leb x y)) [
  | inl e ↦ rw e (h, (c, a))
  | inr e ↦ rw e (c, All-insert_sorted b x ys h a)
]

insert_sorted-IsSorted : (x : ℕ) (ys : List ℕ) → IsSorted ys → IsSorted (insert_sorted x ys)
unfolding insert_sorted
insert_sorted-IsSorted x [] s = (tt, tt)
insert_sorted-IsSorted x (y ∷ ys) (a, s) = elim (Bool-cases (leb x y)) [
  | inl e ↦ rw e ((ground arith, All-le x y ys (ground arith) a), (a, s))
  | inr e ↦ rw e (All-insert_sorted y x ys (ground arith) a, insert_sorted-IsSorted x ys s)
]

pub sort-IsSorted : (xs : List ℕ) → IsSorted (sort xs)
unfolding sort
sort-IsSorted [] = tt
sort-IsSorted (x ∷ xs) = insert_sorted-IsSorted x (sort xs) (sort-IsSorted xs)

length-insert_sorted : (x : ℕ) (ys : List ℕ) → length (insert_sorted x ys) ≡ suc (length ys)
unfolding insert_sorted
length-insert_sorted x [] = refl
length-insert_sorted x (y ∷ ys) = ground (arith, length-insert_sorted x ys)

pub length-sort : (xs : List ℕ) → length (sort xs) ≡ length xs
unfolding sort
length-sort [] = refl
length-sort (x ∷ xs) = length-insert_sorted x (sort xs) ∙ ap suc (length-sort xs)

pub get_elem_total : (xs : List ℕ) (i : ℕ) → i < length xs → (x : ℕ) × (get_elem xs i ≡ ret x)
unfolding get_elem
get_elem_total [] i h = absurd (omega arith)
get_elem_total (x ∷ xs) zero h = (x, refl)
get_elem_total (x ∷ xs) (suc i) h = get_elem_total xs i (omega arith)
