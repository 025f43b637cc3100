-- ===== src/Arena/Spans.antt =====
-- src/arena.rs: the values in a run of slots, after writes to the buffer.
use ltop.Base.{
  ℕ, zero, suc, ◌+◌, ◌*◌, ◌≤◌, ◌<◌, ◌≡◌, refl, ap, ◌∙◌, arith, List, [], ◌∷◌, ◌++◌, length,
  length-append, take,
}
use ltop.Arena.Storage.{Layout, store, read, update}
use ltop.Arena.Slots.{flat, values_from}
use ltop.Arena.Copy.{store-below, read-store, read-shift}

pub suc_mul : (n k : ℕ) → suc n * k ≡ k + n * k
suc_mul n k = grind arith

-- The values are as long as the type says.
abbrev pub AllFit : ℕ → List (List ℕ) → Type 0
AllFit size [] = Unit {0}
AllFit size (value ∷ values) = (length value ≡ size) × AllFit size values

pub length-flat :
    (size : ℕ) (values : List (List ℕ))
    → AllFit size values
    → length (flat values) ≡ length values * size
length-flat size [] h = omega arith
length-flat size (value ∷ values) (e, h) =
    let more = suc_mul (length values) size in
    omega (arith, length-append value (flat values), length-flat size values h)

pub AllFit-take :
    (n size : ℕ) (values : List (List ℕ)) → AllFit size values → AllFit size (take n values)
AllFit-take zero size values h = tt
AllFit-take (suc n) size [] h = tt
AllFit-take (suc n) size (value ∷ values) (e, h) = (e, AllFit-take n size values h)

pub cons_eq : {a b : List ℕ} {xs ys : List (List ℕ)} → a ≡ b → xs ≡ ys → a ∷ xs ≡ b ∷ ys
cons_eq p q = rw (p, q) refl

pub store-append :
    (buf : ℕ → ℕ) (at : ℕ) (xs ys : List ℕ)
    → store buf at (xs ++ ys) ≡ store (store buf at xs) (at + length xs) ys
unfolding store
store-append buf at [] ys = let e : at + 0 ≡ at = omega arith in rw e refl
store-append buf at (x ∷ xs) ys =
    let e : at + suc (length xs) ≡ at + 1 + length xs = omega arith in
    rw e (store-append (update buf at x) (at + 1) xs ys)

module _ (t : Layout) where
  pub values-shift :
      (f g : ℕ → ℕ) (at n : ℕ)
      → ((x : ℕ) → at ≤ x → x < at + n * t.size → f x ≡ g x)
      → values_from f t at n ≡ values_from g t at n
  values-shift f g at zero h = refl
  values-shift f g at (suc n) h =
      let more = suc_mul n t.size in
      let first = read-shift f g at at t.size (λ i lt. h (at + i) (omega arith) (omega arith)) in
      let rest = values-shift f g (at + t.size) n (λ x low high. h x (omega arith) (omega arith)) in
      rw (first, rest) refl

  pub values-append :
      (buf : ℕ → ℕ) (at m n : ℕ)
      → values_from buf t at (m + n)
        ≡ values_from buf t at m ++ values_from buf t (at + m * t.size) n
  values-append buf at zero n =
      let e : 0 + n ≡ n = omega arith in
      let z : at + 0 * t.size ≡ at = omega arith in rw (e, z) refl
  values-append buf at (suc m) n =
      let more = suc_mul m t.size in
      let e : suc m + n ≡ suc (m + n) = omega arith in
      let z : at + suc m * t.size ≡ at + t.size + m * t.size = omega arith in
      rw (e, z) (ap (◌∷◌ (read buf at t.size)) (values-append buf (at + t.size) m n))

  pub values-store :
      (buf : ℕ → ℕ) (at : ℕ) (values : List (List ℕ))
      → AllFit t.size values
      → values_from (store buf at (flat values)) t at (length values) ≡ values
  values-store buf at [] h = refl
  values-store buf at (value ∷ values) (e, h) =
      let buf' = store buf at value in
      let buf'' = store buf' (at + length value) (flat values) in
      let below =
        read-shift buf'' buf' at at (length value)
          (λ i lt. store-below buf' (at + length value) (flat values) (at + i) (omega arith)) in
      let split = rw e at (store-append buf at value (flat values)) in
      let first = rw e at (below ∙ read-store buf at value) in
      let rest = values-store buf' (at + t.size) values h in
      cons_eq (rw split first)
        (ap (λ (f : ℕ → ℕ). values_from f t (at + t.size) (length values)) split ∙ rest)

  pub length-values : (buf : ℕ → ℕ) (at n : ℕ) → length (values_from buf t at n) ≡ n
  length-values buf at zero = refl
  length-values buf at (suc n) = ap suc (length-values buf (at + t.size) n)
