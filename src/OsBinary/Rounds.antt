-- ===== src/OsBinary/Rounds.antt =====
-- src/osbinary.rs, walk: what a round does, and that the fuel of the model never runs out.
use ltop.Base.{
  ℕ, ◌+◌, ◌-◌, ◌<◌, ◌≤◌, ◌≡◌, sym, ◌∙◌, ap, arith, inl, inr, true, false, ◌&&◌, none, some, ltb,
  ltb→le, leb, if◌then◌else◌, ◌>>=◌, length, Bool-cases, some_inj, bind_some, else_some,
}
use ltop.Bytes.{Bytes}
use ltop.OsBinary.Tags.{Tag, read_tag, is_object, scalar_step, checked_u32}
use ltop.OsBinary.{Walk, note, is_some, owed, walk_round}

-- A round at `w` that goes on at `w'`: at a back-reference, or at an object.
pub data Round (blob : Bytes) (w w' : Walk) : Type 0 where
  reference :
      (tag : Tag)
      → read_tag blob w.cursor ≡ some tag
      → is_object tag ≡ true
      → (is_some w.ck ≡ true → tag.operand < w.count)
      → w' ≡ record w { cursor = w.cursor + 4; remaining = w.remaining - 1 }
      → Round blob w w'
  object :
      (tag : Tag) (step : ℕ)
      → read_tag blob w.cursor ≡ some tag
      → is_object tag ≡ false
      → scalar_step tag ≡ some step
      → w.cursor + step ≤ length blob
      → note w.ck w.count w.cursor ≡ some w'.ck
      → w'.cursor ≡ w.cursor + step
      → w'.count ≡ w.count + 1
      → Round blob w w'

reference-Round :
    (blob : Bytes) (w w' : Walk) (tag : Tag)
    → read_tag blob w.cursor ≡ some tag
    → is_object tag ≡ true
    → (if is_some w.ck && leb w.count tag.operand
        then none
        else some (record w { cursor = w.cursor + 4; remaining = w.remaining - 1 }))
      ≡ some w'
    → Round blob w w'
reference-Round blob w w' tag read ref h =
    let (known, e) = else_some (is_some w.ck && leb w.count tag.operand) _ w' h in
    Round.reference tag read ref (λ lent. ground arith) (sym (some_inj e))

object-Round :
    (blob : Bytes) (w w' : Walk) (tag : Tag)
    → read_tag blob w.cursor ≡ some tag
    → is_object tag ≡ false
    → (owed tag (w.remaining - 1) >>= λ remaining. scalar_step tag >>= λ step.
        if ltb (length blob) (w.cursor + step)
        then none
        else (note w.ck w.count w.cursor >>= λ ck. checked_u32 (w.count + 1) >>= λ count.
            some
              (record { cursor = w.cursor + step; remaining = remaining; count = count; ck = ck })))
      ≡ some w'
    → Round blob w w'
object-Round blob w w' tag read obj h =
    let (remaining, counted, h2) = bind_some (owed tag (w.remaining - 1)) _ w' h in
    let (step, sized, h3) = bind_some (scalar_step tag) _ w' h2 in
    let (inside, h4) = else_some (ltb (length blob) (w.cursor + step)) _ w' h3 in
    let (ck, noted, h5) = bind_some (note w.ck w.count w.cursor) _ w' h4 in
    let (count, fits, e) = bind_some (checked_u32 (w.count + 1)) _ w' h5 in
    let e' = sym (some_inj e) in
    let counts : w.count + 1 ≡ count = ground arith in
    Round.object tag step read obj sized (ltb→le _ _ inside)
      (noted ∙ ap (λ (v : Walk). some v.ck) (sym e')) (ap (λ (v : Walk). v.cursor) e')
      (ap (λ (v : Walk). v.count) e' ∙ sym counts)

pub walk_round_inversion :
    (blob : Bytes) (w w' : Walk) → walk_round blob w ≡ some w' → Round blob w w'
unfolding walk_round
walk_round_inversion blob w w' h =
    let (tag, read, h1) = bind_some (read_tag blob w.cursor) _ w' h in
    elim (Bool-cases (is_object tag)) [
      | inl ref ↦ reference-Round blob w w' tag read ref (rw ref at h1)
      | inr obj ↦ object-Round blob w w' tag read obj (rw obj at h1)
    ]
