-- ===== src/Dir/Whole.antt =====
-- src/platform.rs, PidDir: the entries of a whole directory.
use mathlib.Core.Path.{ap₂, subst}
use ltop.Base.{
  ℕ, zero, suc, ◌≤◌, ◌<◌, ◌≡◌, refl, sym, ap, ◌∙◌, arith, true, false, Option, none, some, List, [],
  ◌∷◌, ◌++◌, append_assoc, append-nil, leb, ◌>>=◌, length, length-append, Option-cases, inl, inr,
  some_inj,
}
use ltop.Bytes.{Bytes}
use ltop.Dir.{no_start, PidDir, Entry, entry_of, refill, next, entries, at}
use ltop.Dir.Names.{name_loop-stops, name_loop-total}
use ltop.Dir.Shown.{
  shown, shown-stops, listed, Batch, answers_of, records, AllDirents, AllDirents-append, dir,
  all_shown,
}
use ltop.Dir.Listing.{
  Dirent, IsDirent, encode, encode_all, numbers, length-encode, here, behind, tail, step, next-step,
}

module _ (fuel : ℕ) where
  cont : ℕ → Option (Entry × PidDir) → Option (List Entry)
  cont rounds none = some []
  cont rounds (some (e, d)) = entries fuel rounds d >>= λ rest. some (e ∷ rest)

  all_shown-cons :
      (e : Entry) (l : Option (List Entry)) (es : List (ℕ × ℕ × Bytes))
      → all_shown l ≡ some es
      → all_shown (l >>= λ rest. some (e ∷ rest)) ≡ some (shown e ∷ es)
  unfolding all_shown
  all_shown-cons e none es h = absurd (ground (arith, h))
  all_shown-cons e (some l) es h = ap (λ es. some (shown e ∷ es)) (some_inj h)

  entries-cont :
      (rounds : ℕ) (d : PidDir) → entries fuel (suc rounds) d ≡ (next fuel d >>= cont rounds)
  unfolding entries cont
  entries-cont rounds d = refl

  Lists : List Batch → Bytes → List Dirent → ℕ → ℕ → Type 0
  Lists batches pre es f rounds =
      all_shown (next f (dir batches pre es) >>= cont rounds)
      ≡ some (listed (es ++ records batches))

  -- What is behind one record, with the fuel of the round and with the whole fuel.
  Behind : List Batch → Bytes → List Dirent → ℕ → ℕ → Type 0
  Behind batches pre es f rounds =
      Lists batches pre es f (suc rounds) × Lists batches pre es fuel rounds

  module _ (batches : List Batch) (pre : Bytes) (e : Dirent) (es : List Dirent) (ok : IsDirent e)
      (f rounds : ℕ) where
    -- The place behind the record.
    behind-dir :
        behind f (answers_of batches) pre (encode_all es) e ok ≡ dir batches (pre ++ encode e) es
    unfolding behind dir
    behind-dir =
        let moved = length-append pre (encode e) in
        let bytes = length-encode e ok in
        ap₂ (λ s n. record { answers = answers_of batches; buf = s; buf_pos = n })
          (sym (append_assoc pre (encode e) (encode_all es))) (omega arith)

    -- A name that is skipped, and one that is a number.
    step-skipped :
        Lists batches (pre ++ encode e) es f (suc rounds)
        → numbers e.name ≡ some none
        → all_shown
            (step f (answers_of batches) pre (encode_all es) e ok (some none) >>= cont (suc rounds))
          ≡ some (listed ((e ∷ es) ++ records batches))
    unfolding Lists step listed
    step-skipped h named =
        ap (λ d. all_shown (next f d >>= cont (suc rounds))) behind-dir ∙ h ∙ rw named refl

    step-found :
        (n : ℕ × ℕ)
        → Lists batches (pre ++ encode e) es fuel rounds
        → numbers e.name ≡ some (some n)
        → all_shown (
            step f (answers_of batches) pre (encode_all es) e ok (some (some n))
            >>= cont (suc rounds))
          ≡ some (listed ((e ∷ es) ++ records batches))
    unfolding Lists step listed cont tail
    step-found n h named =
        let later = entries-cont rounds (dir batches (pre ++ encode e) es) in
        all_shown-cons (entry_of n (tail f (answers_of batches) pre (encode_all es) e ok))
          (entries fuel (suc rounds) (behind f (answers_of batches) pre (encode_all es) e ok))
          (listed (es ++ records batches))
          (ap (λ d. all_shown (entries fuel (suc rounds) d)) behind-dir ∙ ap all_shown later ∙ h)
        ∙ rw named (
            ap (λ x. some (x ∷ listed (es ++ records batches)))
              (shown-stops n e.name (e.pad ++ encode_all es) ok.no_zero))

    step-Lists :
        Behind batches (pre ++ encode e) es f rounds
        → (d : PidDir) → refill d ≡ some (here f (answers_of batches) pre (encode_all es) e ok)
        → all_shown (next (suc f) d >>= cont (suc rounds))
          ≡ some (listed ((e ∷ es) ++ records batches))
    unfolding Behind tail numbers
    step-Lists (skipped, found) d filled =
        let start = next-step f (answers_of batches) pre (encode_all es) e ok d filled in
        let (o, named) = name_loop-total 0 no_start 0 e.name in
        let read = name_loop-stops 0 no_start 0 e.name (e.pad ++ encode_all es) ok.no_zero in
        let done : Option (Option (ℕ × ℕ)) → Type 0 = λ o.
          all_shown (step f (answers_of batches) pre (encode_all es) e ok o >>= cont (suc rounds))
          ≡ some (listed ((e ∷ es) ++ records batches)) in
        ap (λ n. all_shown (n >>= cont (suc rounds))) start ∙ (elim (Option-cases o) [
          | inl e0 ↦
              subst done (sym (read ∙ named ∙ ap some e0))
                (step-skipped skipped (named ∙ ap some e0))
          | inr (n, e1) ↦
              subst done (sym (read ∙ named ∙ ap some e1)) (step-found n found (named ∙ ap some e1))
        ])

  refill_same : (d : PidDir) → d.buf_pos < length d.buf → refill d ≡ some d
  unfolding refill
  refill_same d h = let more : leb (length d.buf) d.buf_pos ≡ false = ground arith in rw more refl

  refill_next :
      (a : Bytes) (answers : List Bytes) (pre : Bytes)
      → 0 < length a
      → refill (record { answers = a ∷ answers; buf = pre ++ []; buf_pos = length pre })
        ≡ some (record { answers = answers; buf = a; buf_pos = 0 })
  unfolding refill
  refill_next [] answers pre h = absurd (omega arith)
  refill_next (b ∷ a) answers pre h =
      let same = ap length (append-nil pre) in
      let at_end : leb (length (pre ++ [])) (length pre) ≡ true = ground arith in rw at_end refl

  refill_end :
      (pre : Bytes) → refill (record { answers = []; buf = pre ++ []; buf_pos = length pre }) ≡ none
  unfolding refill
  refill_end pre =
      let same = ap length (append-nil pre) in
      let at_end : leb (length (pre ++ [])) (length pre) ≡ true = ground arith in rw at_end refl

  -- The answers to come, at the end of the buffer.
  Ends : List Batch → Type 0
  Ends batches =
      (pre : Bytes) (f rounds : ℕ)
      → length (records batches) < f
      → length (records batches) ≤ rounds
      → Lists batches pre [] f rounds

  es-Lists :
      (batches : List Batch)
      → Ends batches
      → (es : List Dirent) → AllDirents es
      → length (es ++ records batches) < fuel
      → (pre : Bytes) (f rounds : ℕ) → length (es ++ records batches) < f
      → length (es ++ records batches) ≤ rounds
      → Lists batches pre es f rounds
  unfolding Behind Ends Lists dir encode_all here
  es-Lists batches ends [] all whole pre f rounds hf hr = ends pre f rounds hf hr
  es-Lists batches ends (e ∷ es) (ok, all) whole pre zero rounds hf hr = absurd (omega arith)
  es-Lists batches ends (e ∷ es) (ok, all) whole pre (suc f) zero hf hr = absurd (omega arith)
  es-Lists batches ends (e ∷ es) (ok, all) whole pre (suc f) (suc rounds) hf hr =
      let ih = es-Lists batches ends es all (omega arith) (pre ++ encode e) in
      let behind : Behind batches (pre ++ encode e) es f rounds = (
        ih f (suc rounds) (omega arith) (omega arith),
        ih fuel rounds (omega arith) (omega arith),
      ) in
      let bytes = length-append pre (encode e ++ encode_all es) in
      let record_bytes = length-append (encode e) (encode_all es) in
      let size = length-encode e ok in
      step-Lists batches pre e es ok f rounds behind (dir batches pre (e ∷ es))
        (refill_same (dir batches pre (e ∷ es)) (omega arith))

  batches-Ends :
      (batches : List Batch)
      → AllDirents (records batches)
      → length (records batches) < fuel
      → Ends batches
  unfolding Behind Ends Lists dir encode_all here answers_of records cont listed all_shown next
  batches-Ends [] all whole pre zero rounds hf hr = absurd (omega arith)
  batches-Ends [] all whole pre (suc f) rounds hf hr = rw (refill_end pre, next) refl
  batches-Ends ((e, es) ∷ batches) all whole pre zero rounds hf hr = absurd (omega arith)
  batches-Ends ((e, es) ∷ batches) all whole pre (suc f) zero hf hr = absurd (omega arith)
  batches-Ends ((e, es) ∷ batches) (ok, all) whole pre (suc f) (suc rounds) hf hr =
      let apart = AllDirents-append es (records batches) all in
      let sizes = length-append es (records batches) in
      let ih =
        es-Lists batches (batches-Ends batches apart.1 (omega arith)) es apart.0 (omega arith)
          ([] ++ encode e) in
      let behind : Behind batches ([] ++ encode e) es f rounds = (
        ih f (suc rounds) (omega arith) (omega arith),
        ih fuel rounds (omega arith) (omega arith),
      ) in
      let record_bytes = length-append (encode e) (encode_all es) in
      let size = length-encode e ok in
      step-Lists batches [] e es ok f rounds behind (dir ((e, es) ∷ batches) pre [])
        (refill_next (encode_all (e ∷ es)) (answers_of batches) pre (omega arith))

-- If the answers of getdents64 are well-formed records, one or more in each, then on more fuel
-- than there are records the iterator returns the entries that are named by numbers, with
-- their numbers and names, in the order of the records, however they are split into answers.
pub entries-listed :
    (batches : List Batch) (fuel : ℕ)
    → AllDirents (records batches)
    → length (records batches) < fuel
    → all_shown (entries fuel fuel (at (answers_of batches))) ≡ some (listed (records batches))
unfolding at Ends Lists dir encode_all
entries-listed batches zero all whole = absurd (omega arith)
entries-listed batches (suc rounds) all whole =
    ap (all_shown) (entries-cont (suc rounds) rounds (at (answers_of batches)))
    ∙ batches-Ends (suc rounds) batches all whole [] (suc rounds) rounds whole (omega arith)
