-- ===== src/Display/Slices.antt =====
-- src/main.rs, basename, icontains and rfind_bytes against what they look for.
use ltop.Base.{
  ℕ, zero, suc, ◌+◌, ◌-◌, ◌<◌, ◌≤◌, ◌≡◌, refl, sym, ap, arith, ◌⊎◌, ◌↔◌, Bool, true, false, ◌&&◌,
  none, some, [], ◌∷◌, ◌++◌, leb, leb→le, ltb, ltb→lt, ltb→le, ◌==◌, ==_iff, length, take, drop,
  take-append-drop, length-append, length-take, take-append_length, Bool-cases, inl, inr,
}
use ltop.Bytes.{Bytes, ieq}
use ltop.OsBinary.Tags.{bytes_eq}
use ltop.Display.{basename, icontains, rfind_bytes}
use ltop.Display.Text.{rposition, any_window, find_down}

-- No byte passes the test.
abbrev pub Lacks : (ℕ → Bool) → Bytes → Type 0
Lacks p [] = Unit {0}
Lacks p (x ∷ s) = (p x ≡ false) × Lacks p s

-- rposition finds the last byte that passes the test, or there is none.
pub rposition_splits :
    (p : ℕ → Bool) (s : Bytes)
    → ((rposition p s ≡ none) × Lacks p s)
      ⊎ ((i x : ℕ) × (rposition p s ≡ some i)
          × (take i s ++ x ∷ drop (suc i) s ≡ s)
          × (p x ≡ true)
          × Lacks p (drop (suc i) s))
unfolding rposition
rposition_splits p [] = inl (refl, tt)
rposition_splits p (x ∷ s) = elim (rposition_splits p s) [
  | inl (nowhere, lacks) ↦ elim (Bool-cases (p x)) [
    | inl here ↦ inr (0, x, rw (nowhere, here), refl, here, lacks)
    | inr other ↦ inl (rw (nowhere, other), (other, lacks))
  ]
  | inr (i, y, found, split, passes, lacks) ↦
      let next : i + 1 ≡ suc i = omega arith in
      inr (suc i, y, rw (found, next), ap (◌∷◌ x) split, passes, lacks)
]

-- basename has no slash in it, and is the whole input or what stands behind a slash at the end
-- of it.
pub basename_splits :
    (s : Bytes)
    → Lacks (λ b. b == b'/') (basename s)
      × ((basename s ≡ s) ⊎ ((dir : Bytes) × (dir ++ b'/' ∷ basename s ≡ s)))
unfolding basename
basename_splits s = elim (rposition_splits (λ b. b == b'/') s) [
  | inl (nowhere, lacks) ↦ rw (nowhere, basename) (lacks, inl refl)
  | inr (i, x, found, split, slash, lacks) ↦
      let next : i + 1 ≡ suc i = omega arith in
      let is_slash : x ≡ b'/' = (==_iff _ _).0 slash in
      rw (found, next, basename) (lacks, inr (take i s, rw is_slash at split))
]

pub bytes_eq-true : (a b : Bytes) → bytes_eq a b ≡ true → a ≡ b
unfolding bytes_eq
bytes_eq-true [] [] h = refl
bytes_eq-true [] (y ∷ b) h = cc
bytes_eq-true (x ∷ a) [] h = cc
bytes_eq-true (x ∷ a) (y ∷ b) h = ground (arith, bytes_eq-true a b)

pub bytes_eq_refl : (a : Bytes) → bytes_eq a a ≡ true
unfolding bytes_eq
bytes_eq_refl [] = refl
bytes_eq_refl (x ∷ a) = ground (arith, bytes_eq_refl a)

bytes_eq-false : (a b : Bytes) → bytes_eq a b ≡ false → ¬ (a ≡ b)
bytes_eq-false a b h e = let same : bytes_eq b b ≡ false = rw e at h in cc (bytes_eq_refl b)

-- The needle stands at `i`.
abbrev pub At : Bytes → Bytes → ℕ → Type 0
At s needle i = take (length needle) (drop i s) ≡ needle

below_or_last :
    (s needle : Bytes) (low k j : ℕ)
    → ¬ At s needle (suc k)
    → ((i : ℕ) → low < i → i ≤ k → ¬ At s needle i)
    → low < j
    → j ≤ suc k
    → ¬ At s needle j
below_or_last s needle low k j not_last before above h e = elim (Bool-cases (j == suc k)) [
  | inl last ↦ let is_last : j ≡ suc k = (==_iff _ _).0 last in not_last (rw is_last at e)
  | inr other ↦ before j above (ground arith) e
]

find_down_last :
    (s needle : Bytes) (k : ℕ)
    → ((find_down s needle k ≡ none) × ((j : ℕ) → j ≤ k → ¬ At s needle j))
      ⊎ ((i : ℕ) × (find_down s needle k ≡ some i)
          × (i ≤ k)
          × At s needle i
          × ((j : ℕ) → i < j → j ≤ k → ¬ At s needle j))
unfolding find_down
find_down_last s needle zero = elim (Bool-cases (bytes_eq (take (length needle) s) needle)) [
  | inl here ↦
      inr (0, rw here, omega arith, bytes_eq-true _ _ here, λ j low high. absurd (omega arith))
  | inr other ↦ inl (
    rw other,
    λ j h e.
        let zero_at : j ≡ 0 = omega arith in
        let first : At s needle 0 = rw zero_at at e in bytes_eq-false _ _ other first,
  )
]
find_down_last s needle (suc k) =
    elim (Bool-cases (bytes_eq (take (length needle) (drop (suc k) s)) needle)) [
      | inl here ↦
          inr (
            suc k,
            rw here,
            omega arith,
            bytes_eq-true _ _ here,
            λ j low high. absurd (omega arith),
          )
      | inr other ↦ elim (find_down_last s needle k) [
        | inl (nowhere, none_at) ↦ inl (
          rw (other, nowhere),
          λ j h e. elim (Bool-cases (j == suc k)) [
            | inl last ↦
                let is_last : j ≡ suc k = (==_iff _ _).0 last in
                bytes_eq-false _ _ other (rw is_last at e)
            | inr before ↦ none_at j (ground arith) e
          ],
        )
        | inr (i, found, le, there, last) ↦ inr (
          i,
          rw (other, found),
          omega arith,
          there,
          λ j low h. below_or_last s needle i k j (bytes_eq-false _ _ other) last low h,
        )
      ]
    ]

-- rfind_bytes returns the last place where the needle stands in the haystack, or none if it
-- stands nowhere.
pub rfind_bytes_last :
    (s needle : Bytes)
    → ((rfind_bytes s needle ≡ none) × ((j : ℕ) → j + length needle ≤ length s → ¬ At s needle j))
      ⊎ ((i : ℕ) × (rfind_bytes s needle ≡ some i)
          × (i + length needle ≤ length s)
          × At s needle i
          × ((j : ℕ) → i < j → j + length needle ≤ length s → ¬ At s needle j))
unfolding rfind_bytes
rfind_bytes_last s [] = inr (length s, refl, omega arith, refl, λ j low h. absurd (omega arith))
rfind_bytes_last s (y ∷ needle) =
    let filled : (suc (length needle) == 0) ≡ false = ground arith in
    elim (Bool-cases (ltb (length s) (length (y ∷ needle)))) [
      | inl short ↦ inl (rw (filled, short), λ j h. absurd (omega (arith, ltb→lt _ _ short)))
      | inr long ↦
          let size = ltb→le _ _ long in
          elim (find_down_last s (y ∷ needle) (length s - length (y ∷ needle))) [
            | inl (nowhere, none_at) ↦
                inl (rw (filled, long) nowhere, λ j h. none_at j (omega arith))
            | inr (i, found, le, there, last) ↦ inr (
              i,
              rw (filled, long) found,
              omega arith,
              there,
              λ j low h. last j low (omega arith),
            )
          ]
    ]

-- A window that stands in the haystack.
abbrev pub Window : Bytes → Bytes → Type 0
Window s needle =
    (before window after : Bytes) × (before ++ window ++ after ≡ s)
    × (length window ≡ length needle)
    × (ieq window needle ≡ true)

and_true : (a b : Bool) → (a && b) ≡ true → (a ≡ true) × (b ≡ true)
and_true true b h = (refl, h)
and_true false b h = cc

any_window_finds : (s needle : Bytes) → any_window needle s ≡ true → Window s needle
unfolding any_window
any_window_finds [] needle h = cc
any_window_finds (x ∷ s) needle h =
    elim (Bool-cases
      (leb (length needle) (length (x ∷ s)) && ieq (take (length needle) (x ∷ s)) needle)) [
        | inl here ↦
            let n = length needle in
            let (fits, same) =
              and_true (leb n (length (x ∷ s))) (ieq (take n (x ∷ s)) needle) here in
            let size : length (take n (x ∷ s)) ≡ n =
              omega (arith, length-take n (x ∷ s), leb→le _ _ fits) in
            ([], take n (x ∷ s), drop n (x ∷ s), take-append-drop n (x ∷ s), size, same)
        | inr other ↦
            let (before, window, after, split, size, same) =
              any_window_finds s needle (rw other at h) in
            (x ∷ before, window, after, ap (◌∷◌ x) split, size, same)
      ]

any_window_complete :
    (before window after needle : Bytes)
    → 0 < length needle
    → length window ≡ length needle
    → ieq window needle ≡ true
    → any_window needle (before ++ window ++ after) ≡ true
unfolding any_window
any_window_complete [] [] after needle pos size same = absurd (omega arith)
any_window_complete [] (y ∷ window) after needle pos size same =
    let here : take (length needle) (y ∷ (window ++ after)) ≡ y ∷ window =
      take-append_length (y ∷ window) after (length needle) (sym size) in
    let fits : leb (length needle) (suc (length (window ++ after))) ≡ true =
      ground (arith, length-append window after) in
    rw (fits, here, same)
any_window_complete (x ∷ before) window after needle pos size same =
    ground (arith, any_window_complete before window after needle pos size same)

ieq_nil : ieq [] [] ≡ true
unfolding ieq
ieq_nil = refl

Window-fits : (s needle : Bytes) → Window s needle → length needle ≤ length s
Window-fits s needle (before, window, after, split, size, same) =
    omega
      (arith, ap length split, length-append (before ++ window) after, length-append before window)

-- icontains is true exactly if a part of the haystack, as long as the needle, is equal to it up
-- to the case of letters.
pub icontains_iff : (s needle : Bytes) → (icontains s needle ≡ true) ↔ Window s needle
unfolding icontains
icontains_iff s [] = (λ h. ([], [], s, refl, refl, ieq_nil), λ w. refl)
icontains_iff s (y ∷ needle) =
    let filled : (suc (length needle) == 0) ≡ false = ground arith in
    elim (Bool-cases (ltb (length s) (length (y ∷ needle)))) [
      | inl short ↦
          rw (filled, short)
            (λ h. cc, λ w. absurd (omega (arith, ltb→lt _ _ short, Window-fits s (y ∷ needle) w)))
      | inr long ↦
          rw (filled, long)
            (
              any_window_finds s (y ∷ needle),
              λ w.
                  let (before, window, after, split, size, same) = w in
                  rw split at
                    (any_window_complete before window after (y ∷ needle) (omega arith) size same),
            )
    ]
