-- ===== src/Tree/Columns.antt =====
-- src/main.rs, Indent: the prefix is as wide as width says.
use ltop.Base.{
  ℕ, zero, suc, ◌+◌, ◌-◌, ◌*◌, ◌≡◌, arith, [], ◌∷◌, ◌++◌, leb, ltb, ◌==◌, if◌then◌else◌, ◌&&◌,
  Bool-cases, inl, inr,
}
use ltop.Bytes.{Bytes}
use ltop.Tree.{Indent, render_depth, width, bit_at, bars_loop, put_indent, blanks, bar, elbow, tee}

-- The terminal's columns: the bytes that start a character.
abbrev pub columns : Bytes → ℕ
columns [] = 0
columns (b ∷ s) = (if leb 0x80 b && ltb b 0xc0 then 0 else 1) + columns s

columns-append : (s t : Bytes) → columns (s ++ t) ≡ columns s + columns t
columns-append [] t = omega arith
columns-append (b ∷ s) t = omega (arith, columns-append s t)

columns-bars_loop : (rounds i mask : ℕ) → columns (bars_loop rounds i mask) ≡ rounds * 2
unfolding bars_loop
columns-bars_loop zero i mask = omega arith
columns-bars_loop (suc rounds) i mask =
    let rest = columns-bars_loop rounds (i + 1) mask in
    elim (Bool-cases (bit_at mask i)) [
      | inl last ↦ rw last (omega (arith, columns-append blanks (bars_loop rounds (i + 1) mask)))
      | inr more ↦ rw more (omega (arith, columns-append bar (bars_loop rounds (i + 1) mask)))
    ]

-- At every depth, the prefix that Indent draws is as many columns wide as width says.
pub columns-put_indent : (d : Indent) → columns (put_indent d) ≡ width d
unfolding put_indent width
columns-put_indent d = elim (Bool-cases (render_depth d == 0)) [
  | inl root ↦ rw root (ground arith)
  | inr below ↦
      let bars = columns-bars_loop (render_depth d - 1) 0 d.mask in
      elim (Bool-cases (bit_at d.mask (render_depth d - 1))) [
        | inl last ↦
            rw (below, last)
              (ground (arith, columns-append (bars_loop (render_depth d - 1) 0 d.mask) elbow))
        | inr more ↦
            rw (below, more)
              (ground (arith, columns-append (bars_loop (render_depth d - 1) 0 d.mask) tee))
      ]
]
