-- ===== src/LightClient/Median/Selection.antt =====
-- The selection sort of `median_timestamp`, and the median against a description by counting.
use utxopia_solana_programs.Prelude.{
  ℕ, zero, suc, ◌+◌, ◌-◌, ◌/◌, ◌≤◌, ◌<◌, ◌≡◌, ◌⊎◌, inl, inr, Bool, List, [], ◌∷◌, ltb, leb, ◌==◌,
  if◌then◌else◌, Bool-cases, length, get_or, set, length-set, refl, ap, sym, ◌∙◌, arith,
}
use utxopia_solana_programs.LightClient.Median.{min_loop, sort_loop, median_timestamp}

-- How many elements pass a test.
abbrev pub count : (ℕ → Bool) → List ℕ → ℕ
count test [] = 0
count test (x ∷ xs) = if test x then suc (count test xs) else count test xs

-- No element is below the first, all the way down.
abbrev IsSorted : List ℕ → Type 0
IsSorted [] = Unit
IsSorted (x ∷ xs) = (count (λ y. ltb y x) xs ≡ 0) × IsSorted xs

-- The result `r` of the inner loop: the least value, and the index where it stands.
record Selected (least m j : ℕ) (ys : List ℕ) (r : ℕ × ℕ) : Type 0 where
  not_above : r.0 ≤ least
  lowest : count (λ y. ltb y r.0) ys ≡ 0
  place :
      ((r.1 ≡ m) × (r.0 ≡ least))
      ⊎ ((j ≤ r.1) × (r.1 < j + length ys) × (r.0 ≡ get_or ys (r.1 - j) 0))

-- The element at an offset past the first, and at none.
later : (y j r : ℕ) (ys : List ℕ) → suc j ≤ r → get_or ys (r - suc j) 0 ≡ get_or (y ∷ ys) (r - j) 0
later y j r ys h =
    let e : r - j ≡ suc (r - suc j) = omega arith in sym (ap (λ k. get_or (y ∷ ys) k 0) e)

first : (y j r : ℕ) (ys : List ℕ) → r ≡ j → y ≡ get_or (y ∷ ys) (r - j) 0
first y j r ys h = let e : r - j ≡ 0 = omega arith in sym (ap (λ k. get_or (y ∷ ys) k 0) e)

-- A round that takes the element `y` at `j`, and one that keeps the least so far.
taken :
    (least m j y : ℕ) (ys : List ℕ) (r : ℕ × ℕ)
    → y < least
    → Selected y j (suc j) ys r
    → Selected least m j (y ∷ ys) r
taken least m j y ys r h rest = record {
  not_above = omega (arith, rest.not_above);
  lowest = ground (arith, rest.lowest, rest.not_above);
  place = elim rest.place [
    | inl (at, e) ↦ inr (omega arith, omega arith, e ∙ first y j r.1 ys at)
    | inr (lo, hi, e) ↦ inr (omega arith, omega arith, e ∙ later y j r.1 ys lo)
  ];
}

kept :
    (least m j y : ℕ) (ys : List ℕ) (r : ℕ × ℕ)
    → least ≤ y
    → Selected least m (suc j) ys r
    → Selected least m j (y ∷ ys) r
kept least m j y ys r h rest = record {
  not_above = rest.not_above;
  lowest = ground (arith, rest.lowest, rest.not_above);
  place = elim rest.place [
    | inl (at, e) ↦ inl (at, e)
    | inr (lo, hi, e) ↦ inr (omega arith, omega arith, e ∙ later y j r.1 ys lo)
  ];
}

min_loop-Selected : (least m j : ℕ) (ys : List ℕ) → Selected least m j ys (min_loop least m j ys)
unfolding min_loop
min_loop-Selected least m j [] = record {
  not_above = omega arith;
  lowest = refl;
  place = inl (refl, refl);
}
min_loop-Selected least m j (y ∷ ys) = elim (Bool-cases (ltb y least)) [
  | inl less ↦ rw less (taken least m j y ys _ (ground arith) (min_loop-Selected y j (suc j) ys))
  | inr not_less ↦
      rw not_less (kept least m j y ys _ (ground arith) (min_loop-Selected least m (suc j) ys))
]

-- A write exchanges the old element for the new one.
count-set :
    (test : ℕ → Bool) (xs : List ℕ) (i v : ℕ)
    → i < length xs
    → count test (set xs i v) + count test (get_or xs i 0 ∷ [])
      ≡ count test xs + count test (v ∷ [])
count-set test [] i v h = absurd (omega arith)
count-set test (x ∷ xs) zero v h = ground arith
count-set test (x ∷ xs) (suc i) v h = ground (arith, count-set test xs i v (omega arith))

get_or-lowest :
    (x : ℕ) (xs : List ℕ) (i : ℕ) → count (λ y. ltb y x) xs ≡ 0 → i < length xs → x ≤ get_or xs i 0
get_or-lowest x [] i e h = absurd (omega arith)
get_or-lowest x (y ∷ ys) zero e h = ground arith
get_or-lowest x (y ∷ ys) (suc i) e h = ground (arith, get_or-lowest x ys i)

-- The list after the swap of a round, on the least element and its index.
abbrev swapped : ℕ → List ℕ → ℕ → List ℕ
swapped x xs m = if m == 0 then xs else set xs (m - 1) x

swapped-suc : (x : ℕ) (xs : List ℕ) (i : ℕ) → swapped x xs (suc i) ≡ set xs i x
swapped-suc x xs i = ground arith

-- A round keeps every count, and leaves nothing below the element that it puts first.
record Round (x : ℕ) (xs : List ℕ) (least : ℕ) (rest : List ℕ) : Type 0 where
  lowest : count (λ y. ltb y least) rest ≡ 0
  size : length rest ≡ length xs
  counts : (test : ℕ → Bool) → count test (least ∷ rest) ≡ count test (x ∷ xs)

selected-Round :
    (x : ℕ) (xs : List ℕ) (least m : ℕ)
    → Selected x 0 1 xs (least, m)
    → Round x xs least (swapped x xs m)
selected-Round x xs least zero s = record {
  lowest = s.lowest;
  size = refl;
  counts = λ test. elim s.place [
    | inl (_, e) ↦ ap (λ l. count test (l ∷ xs)) e
    | inr (lo, _, _) ↦ absurd (omega arith)
  ];
}
selected-Round x xs least (suc i) s = elim s.place [
  | inl (at, _) ↦ absurd (omega arith)
  | inr (_, hi, e) ↦
      let written = count-set (λ y. ltb y least) xs i x (omega arith) in
      rw (swapped-suc x xs i) (record {
        lowest = ground (arith, written, s.lowest, s.not_above);
        size = length-set xs i x;
        counts = λ test.
            rw e (let exchanged = count-set test xs i x (omega arith) in ground (arith, exchanged));
      })
]

-- The sort keeps every count and gives a sorted list.
sort_loop-IsSorted :
    (n : ℕ) (xs : List ℕ)
    → length xs ≤ n
    → IsSorted (sort_loop n xs)
      × (length (sort_loop n xs) ≡ length xs)
      × ((test : ℕ → Bool) → count test (sort_loop n xs) ≡ count test xs)
unfolding sort_loop
sort_loop-IsSorted zero [] h = (tt, refl, λ test. refl)
sort_loop-IsSorted zero (x ∷ xs) h = absurd (omega arith)
sort_loop-IsSorted (suc n) [] h = (tt, refl, λ test. refl)
sort_loop-IsSorted (suc n) (x ∷ xs) h =
    let (least, m) = min_loop x 0 1 xs in
    let round = selected-Round x xs least m (min_loop-Selected x 0 1 xs) in
    let (sorted, size, counts) =
      sort_loop-IsSorted n (swapped x xs m) (omega (arith, round.size)) in
    (
      (counts (λ y. ltb y least) ∙ round.lowest, sorted),
      ap suc (size ∙ round.size),
      λ test. ground (arith, counts test, round.counts test),
    )

sorted-rank :
    (xs : List ℕ) (i : ℕ)
    → IsSorted xs
    → i < length xs
    → (count (λ y. ltb y (get_or xs i 0)) xs ≤ i) × (i < count (λ y. leb y (get_or xs i 0)) xs)
sorted-rank [] i sorted h = absurd (omega arith)
sorted-rank (x ∷ xs) zero sorted h = ground (arith, sorted.0)
sorted-rank (x ∷ xs) (suc i) sorted h =
    let above = get_or-lowest x xs i sorted.0 (omega arith) in
    ground (arith, above, sorted-rank xs i sorted.1 (omega arith))

-- The median of a window that is not empty: at most half of the timestamps, rounded down, are
-- smaller than it, and more than that are not larger. That fixes its value.
pub median_timestamp-ranked :
    (window : List ℕ)
    → 0 < length window
    → (count (λ y. ltb y (median_timestamp window)) window ≤ length window / 2)
      × (length window / 2 < count (λ y. leb y (median_timestamp window)) window)
unfolding median_timestamp
median_timestamp-ranked window h =
    let (sorted, size, counts) = sort_loop-IsSorted (length window) window (omega arith) in
    let middle = length window / 2 in
    let m = get_or (sort_loop (length window) window) middle 0 in
    let (below, reach) =
      sorted-rank (sort_loop (length window) window) middle sorted (omega (arith, size)) in
    (rw (← counts (λ y. ltb y m)) below, rw (← counts (λ y. leb y m)) reach)
