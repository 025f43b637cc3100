-- ===== src/OsBinary/Lookup.antt =====
-- src/osbinary.rs, parse, nth_object and resolve: the parsed blob as the list of its objects.
use native.Mathlib.Nat.{div-add-mod}
use ltop.Base.{
  bind_some, else_some, ℕ, ◌+◌, ◌-◌, ◌*◌, ◌/◌, ◌^◌, ◌<◌, ◌≤◌, ◌≡◌, refl, sym, ◌∙◌, ap, arith, inl,
  inr, false, some, List, [], ltb, ltb→lt, ltb→le, leb, leb→le, leb→lt, ◌==◌, length, ◌||◌, not,
  get_elem?, get_elem?-eq_none, get_elem?-take, get_elem?-drop, get_elem?-get_or, get_or, take,
  Bool-cases, some_inj,
}
use ltop.Bytes.{Bytes}
use ltop.OsBinary.Tags.{Tag, read_tag, is_object, bytes_eq}
use ltop.OsBinary.Checkpoints.{Ckpts}
use ltop.OsBinary.Table.{mul_mono, Covers, Covers-start}
use ltop.OsBinary.Objects.{Flat, scan_loop-Flat, Flat-drop, Flat-object, walk_loop-Emits}
use ltop.OsBinary.{OsBinary, walk, parse, finish, magic, nth_object, resolve}

-- What parse returns stems from a walk whose table covers the objects of the blob.
parse_objects :
    (blob : Bytes) (buf : List ℕ) (b : OsBinary)
    → parse blob buf ≡ some b
    → (os : List ℕ) × (ck : Ckpts) × Covers os ck
      × Flat blob 0 4 os
      × (b.blob ≡ blob)
      × (b.count ≡ length os)
      × (b.stride ≡ ck.stride)
      × (b.ckpts ≡ take ck.n ck.buf)
unfolding parse walk
parse_objects blob buf b h =
    let (usable, h1) =
      else_some (ltb (length blob) 8 || not (bytes_eq (take 4 blob) magic) || length buf == 0) _ b
        h in
    let (small, h2) = else_some (leb (2 ^ 32 - 1 - 16) (length blob)) _ b h1 in
    let (w, ran, h3) =
      bind_some (walk blob 4 (some (record { buf = buf; n = 0; stride = 1 }))) (finish blob) b h2 in
    let room : 0 < length buf = ground arith in
    let (os, ck, lent, v, counted, flat) =
      walk_loop-Emits blob (length blob + 2)
        (record {
          cursor = 4;
          remaining = 1;
          count = 0;
          ck = some (record { buf = buf; n = 0; stride = 1 });
        })
        w [] (record { buf = buf; n = 0; stride = 1 }) refl (Covers-start buf room) refl ran in
    let (ck', lent', made) = bind_some w.ck _ b h3 in
    let same : ck ≡ ck' = some_inj (sym lent ∙ lent') in
    (
      os,
      ck,
      v,
      flat,
      ap (λ (x : OsBinary). x.blob) (sym (some_inj made)),
      ap (λ (x : OsBinary). x.count) (sym (some_inj made)) ∙ counted,
      ap (λ (x : OsBinary). x.stride) (sym (some_inj made))
          ∙ ap (λ (x : Ckpts). x.stride) (sym same),
      ap (λ (x : OsBinary). x.ckpts) (sym (some_inj made))
          ∙ ap (λ (x : Ckpts). take x.n x.buf) (sym same),
    )

div_low : (c s : ℕ) → c / s * s ≤ c
div_low c s = omega (arith, div-add-mod c s)

div_below : (c s n : ℕ) → c < n * s → c / s < n
div_below c s n h = elim (Bool-cases (ltb (c / s) n)) [
  | inl less ↦ ltb→lt _ _ less
  | inr not_less ↦ absurd (omega (arith, div_low c s, mul_mono n (c / s) s (ltb→le _ _ not_less)))
]

-- nth_object jumps to a checkpoint and scans on from it.
nth_object-Covers :
    (b : OsBinary) (os : List ℕ) (ck : Ckpts) (idx : ℕ)
    → Covers os ck
    → Flat b.blob 0 4 os
    → b.count ≡ length os
    → b.stride ≡ ck.stride
    → b.ckpts ≡ take ck.n ck.buf
    → nth_object b idx ≡ get_elem? os idx
unfolding nth_object
nth_object-Covers b os ck idx v flat count stride ckpts = elim (Bool-cases (leb b.count idx)) [
  | inl out ↦ rw out (sym (get_elem?-eq_none os idx (omega (arith, leb→le _ _ out))))
  | inr within ↦
      let below : idx < length os = omega (arith, leb→lt _ _ within) in
      let j = idx / ck.stride in
      let left : j * ck.stride ≤ idx = div_low idx ck.stride in
      let low : j < ck.n = div_below idx ck.stride ck.n (omega (arith, v.reaches)) in
      let from : j * ck.stride < length os = omega arith in
      let o = get_or os (j * ck.stride) 0 in
      let there : get_elem? os (j * ck.stride) ≡ some o =
        get_elem?-get_or os (j * ck.stride) 0 from in
      let entry : get_elem? b.ckpts j ≡ some o =
        ap (λ t. get_elem? t j) ckpts
        ∙ (get_elem?-take ck.n ck.buf j low ∙ (v.entries j low ∙ there)) in
      let found : get_elem? os idx ≡ some (get_or os idx 0) = get_elem?-get_or os idx 0 below in
      let plain : 0 + j * ck.stride ≡ j * ck.stride = omega arith in
      let stretch = rw plain at (Flat-drop b.blob (j * ck.stride) 0 4 o flat there) in
      let rest : j * ck.stride + (idx - j * ck.stride) ≡ idx = omega arith in
      let reached =
        scan_loop-Flat b.blob (length b.blob + 1) (j * ck.stride) o idx (get_or os idx 0)
          (omega arith) left stretch
          (get_elem?-drop (j * ck.stride) os (idx - j * ck.stride)
            ∙ (ap (get_elem? os) rest ∙ found)) in
      rw (within, stride, entry) (reached ∙ sym found)
]

-- For a blob that parse accepts there is a list of offsets, the places of its objects in the
-- order of emission, in which every back-reference names an earlier object; its length is
-- count, and nth_object at every index, in range or not, is the entry of that list.
pub nth_object-parse :
    (blob : Bytes) (buf : List ℕ) (b : OsBinary)
    → parse blob buf ≡ some b
    → (os : List ℕ) × Flat blob 0 4 os
      × (b.count ≡ length os)
      × ((idx : ℕ) → nth_object b idx ≡ get_elem? os idx)
nth_object-parse blob buf b h =
    let (os, ck, v, flat, same, count, stride, ckpts) = parse_objects blob buf b h in
    (os, flat, count, λ idx. nth_object-Covers b os ck idx v (rw same flat) count stride ckpts)

-- In a blob that parse accepts, what resolve returns is the offset of an item that is no
-- back-reference: one step is enough.
pub resolve-object :
    (blob : Bytes) (buf : List ℕ) (b : OsBinary) (offset target : ℕ)
    → parse blob buf ≡ some b
    → resolve b offset ≡ some target
    → (tag : Tag) × (read_tag blob target ≡ some tag) × (is_object tag ≡ false)
unfolding resolve
resolve-object blob buf b offset target h r =
    let (os, ck, v, flat, same, count, stride, ckpts) = parse_objects blob buf b h in
    let (tag, read, r1) = bind_some (read_tag b.blob offset) _ target r in
    elim (Bool-cases (is_object tag)) [
      | inl ref ↦
          let nth = nth_object-Covers b os ck tag.operand v (rw same flat) count stride ckpts in
          Flat-object blob tag.operand 0 4 target flat (sym nth ∙ (rw ref at r1))
      | inr obj ↦
          let here : offset ≡ target = some_inj (rw obj at r1) in
          (tag, rw here at (rw same at read), obj)
    ]
