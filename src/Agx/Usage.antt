-- ===== src/Agx/Usage.antt =====
-- src/gpu/agx.rs, populate: what each process is credited with.
use native.Mathlib.Nat.{ℕ_set}
use ltop.Base.{
  ℕ, suc, ◌+◌, ◌%◌, ◌^◌, ◌≤◌, ◌<◌, ◌≡◌, refl, sym, ap, ◌∙◌, arith, true, false, Option, none, some,
  List, [], ◌∷◌, ◌++◌, append_assoc, append-nil, ltb, ◌==◌, if◌then◌else◌, ◌>>=◌, length,
  length-append, Bool-cases, inl, inr, Option-cases, some_inj,
}
use ltop.Bytes.{Bytes}
use ltop.Map.{get}
use ltop.Map.Order.{AllFrom, IsStrict, IsStrict-StrictlyAscends}
use ltop.Map.Search.{find, binary_search_by_key-find}
use ltop.Map.Freeze.{CanMerge, gather, get-freeze_map, freeze_map-IsStrict}
use ltop.Agx.{
  parse_blob, read_perf_stats_blob, compute_pct, Totals, Accelerator, client_reading, walk_clients,
  walk_accelerators, max_tracked_pids, add_u64, value_or_zero, entries_of, populate,
}

-- All readings of the clients, in order.
abbrev pub cons_reading : Option (ℕ × ℕ) → List (ℕ × ℕ) → List (ℕ × ℕ)
cons_reading none rs = rs
cons_reading (some r) rs = r ∷ rs

unfoldable pub client_readings : List (Option Bytes) → List (ℕ × ℕ)
client_readings [] = []
client_readings (blob ∷ blobs) = cons_reading (client_reading blob) (client_readings blobs)

unfoldable pub readings : List Accelerator → List (ℕ × ℕ)
unfolding client_readings
readings [] = []
readings (agx ∷ rest) = client_readings agx.clients ++ readings rest

walk_clients-readings :
    (blobs : List (Option Bytes)) (now : List (ℕ × ℕ))
    → length now + length (client_readings blobs) ≤ max_tracked_pids
    → walk_clients blobs now ≡ now ++ client_readings blobs
unfolding walk_clients client_readings
walk_clients-readings [] now h = sym (append-nil now)
walk_clients-readings (blob ∷ blobs) now h = elim (Option-cases (client_reading blob)) [
  | inl e ↦ rw e (walk_clients-readings blobs now (rw e at h))
  | inr (r, e) ↦
      let h' = rw e at h in
      let room : ltb (length now) max_tracked_pids ≡ true = ground arith in
      let grown = length-append now (r ∷ []) in
      rw (e, room)
        (walk_clients-readings blobs (now ++ r ∷ []) (omega arith)
          ∙ append_assoc now (r ∷ []) (client_readings blobs))
]

walk_accelerators-readings :
    (accelerators : List Accelerator) (now : List (ℕ × ℕ)) (used : ℕ)
    → length now + length (readings accelerators) ≤ max_tracked_pids
    → (walk_accelerators accelerators now used).0 ≡ now ++ readings accelerators
unfolding walk_accelerators readings
walk_accelerators-readings [] now used h = sym (append-nil now)
walk_accelerators-readings (agx ∷ rest) now used h =
    let here = client_readings agx.clients in
    let all = length-append here (readings rest) in
    let grown = length-append now here in
    let stats = parse_blob agx.stats >>= read_perf_stats_blob in
    let used' : ℕ = elim stats [ none ↦ used | some mib ↦ (used + mib) % 2 ^ 64 ] in
    ap (λ m. (walk_accelerators rest m used').0)
      (walk_clients-readings agx.clients now (omega arith))
    ∙ walk_accelerators-readings rest (now ++ here) used' (omega arith)
    ∙ append_assoc now here (readings rest)

add_u64-CanMerge : CanMerge add_u64
add_u64-CanMerge = record {
  is_set = ℕ_set;
  assoc = λ a b c. omega arith;
  comm = λ a b. omega arith;
}

-- The percentage of a process, if it is not zero.
abbrev pub shown_pct : ℕ → ℕ → ℕ → Option ℕ
shown_pct prev_ns now_ns dt_ns =
    if compute_pct prev_ns now_ns dt_ns == 0 then none else some (compute_pct prev_ns now_ns dt_ns)

pub usage_of : List (ℕ × ℕ) → ℕ → ℕ → Option ℕ → Option ℕ
usage_of prev dt_ns pid now_ns = now_ns >>= λ ns. shown_pct (value_or_zero (get prev pid)) ns dt_ns

abbrev key : ℕ × ℕ → ℕ
key e = e.0

get-IsStrict :
    (m : List (ℕ × ℕ)) (k : ℕ) → IsStrict key m → get m k ≡ (find key k m >>= λ e. some e.1)
unfolding get
get-IsStrict m k strict =
    rw (binary_search_by_key-find key m (IsStrict-StrictlyAscends key m strict) k) refl

find-AllFrom : (k b : ℕ) (m : List (ℕ × ℕ)) → k < b → AllFrom key b m → find key k m ≡ none
unfolding find
find-AllFrom k b [] h all = refl
find-AllFrom k b ((pid, n) ∷ m) h (le, all) =
    let miss : (pid == k) ≡ false = ground arith in rw miss (find-AllFrom k b m h all)

module _ (prev : List (ℕ × ℕ)) (dt_ns : ℕ) where
  entries_of-AllFrom :
      (b : ℕ) (m : List (ℕ × ℕ)) → AllFrom key b m → AllFrom key b (entries_of prev dt_ns m)
  unfolding entries_of
  entries_of-AllFrom b [] all = tt
  entries_of-AllFrom b ((pid, n) ∷ m) (le, all) =
      elim (Bool-cases (compute_pct (value_or_zero (get prev pid)) n dt_ns == 0)) [
        | inl idle ↦ rw idle (entries_of-AllFrom b m all)
        | inr busy ↦ rw busy (le, entries_of-AllFrom b m all)
      ]

  entries_of-IsStrict : (m : List (ℕ × ℕ)) → IsStrict key m → IsStrict key (entries_of prev dt_ns m)
  unfolding entries_of
  entries_of-IsStrict [] strict = tt
  entries_of-IsStrict ((pid, n) ∷ m) (from, strict) =
      elim (Bool-cases (compute_pct (value_or_zero (get prev pid)) n dt_ns == 0)) [
        | inl idle ↦ rw idle (entries_of-IsStrict m strict)
        | inr busy ↦ rw busy (entries_of-AllFrom (suc pid) m from, entries_of-IsStrict m strict)
      ]

  find-entries_of :
      (m : List (ℕ × ℕ)) (k : ℕ)
      → IsStrict key m
      → (find key k (entries_of prev dt_ns m) >>= λ e. some e.1)
        ≡ usage_of prev dt_ns k (find key k m >>= λ e. some e.1)
  unfolding entries_of find usage_of
  find-entries_of [] k strict = refl
  find-entries_of ((pid, n) ∷ m) k (from, strict) = elim (Bool-cases (pid == k)) [
    | inl hit ↦
        let same : pid ≡ k = ground arith in
        let self : (pid == pid) ≡ true = ground arith in
        let behind = entries_of-AllFrom (suc pid) m from in
        let gone = find-AllFrom pid (suc pid) (entries_of prev dt_ns m) (omega arith) behind in
        rw (← same) (elim (Bool-cases (compute_pct (value_or_zero (get prev pid)) n dt_ns == 0)) [
          | inl idle ↦ rw (idle, self, gone, idle) refl
          | inr busy ↦ rw (busy, self, busy) refl
        ])
    | inr miss ↦ elim (Bool-cases (compute_pct (value_or_zero (get prev pid)) n dt_ns == 0)) [
      | inl idle ↦ rw (idle, miss) (find-entries_of m k strict)
      | inr busy ↦ rw (busy, miss) (find-entries_of m k strict)
    ]
  ]

-- What populate answers for one process.
abbrev pub of_pid : ℕ → Option (List (ℕ × ℕ) × List (ℕ × ℕ) × Totals) → Option (Option ℕ × Option ℕ)
of_pid pid none = none
of_pid pid (some (entries, new_prev, totals)) = some (get entries pid, get new_prev pid)

-- With a GPU, time passed and at most max_tracked_pids readings, populate does not panic, and
-- get answers on the new table the sum of all readings of the process modulo 2^64, and on the
-- entries the percentage from its sum before to that sum, or none if it has no reading or the
-- percentage is zero.
pub populate_lem :
    (n_gpus total_mib : ℕ) (prev : List (ℕ × ℕ)) (accelerators : List Accelerator) (dt_ns pid : ℕ)
    → (n_gpus == 0) ≡ false
    → (dt_ns == 0) ≡ false
    → length (readings accelerators) ≤ max_tracked_pids
    → of_pid pid (populate n_gpus total_mib prev (some accelerators) dt_ns)
      ≡ some (
        usage_of prev dt_ns pid (gather add_u64 pid (readings accelerators)),
        gather add_u64 pid (readings accelerators),
      )
unfolding populate
populate_lem n_gpus total_mib prev accelerators dt_ns pid gpus time room =
    let all = readings accelerators in
    let walked = walk_accelerators-readings accelerators [] 0 (omega arith) in
    let (m, frozen, strict) = freeze_map-IsStrict add_u64 add_u64-CanMerge all in
    let kept : get m pid ≡ gather add_u64 pid all = some_inj (
      ap (λ o. o >>= λ n. some (get n pid)) (sym frozen)
      ∙ get-freeze_map add_u64 add_u64-CanMerge all pid) in
    let shown : get (entries_of prev dt_ns m) pid ≡ usage_of prev dt_ns pid (get m pid) =
      get-IsStrict (entries_of prev dt_ns m) pid (entries_of-IsStrict prev dt_ns m strict)
      ∙ find-entries_of prev dt_ns m pid strict
      ∙ ap (usage_of prev dt_ns pid) (sym (get-IsStrict m pid strict)) in
    rw (gpus, time, walked, frozen, shown, kept) refl
