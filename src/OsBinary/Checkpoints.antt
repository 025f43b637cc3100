-- ===== src/OsBinary/Checkpoints.antt =====
-- src/osbinary.rs: Ckpts, the table of the offsets of every stride-th object.
use ltop.Base.{
  ℕ, zero, suc, ◌+◌, ◌*◌, ◌/◌, ◌%◌, Option, none, some, List, ltb, ◌==◌, if◌then◌else◌, ◌>>=◌,
  length, get_elem?, set,
}

pub record Ckpts : Type 0 where
  pub buf : List ℕ
  pub n : ℕ
  pub stride : ℕ

-- `buf[w] = buf[r]`, and `buf[i] = v`: an index out of range panics.
unfoldable pub store : List ℕ → ℕ → ℕ → Option (List ℕ)
store buf i v = if ltb i (length buf) then some (set buf i v) else none

-- `while r < n { buf[w] = buf[r]; w += 1; r += 2 }`, with `r = 2 * w`: the rounds left, `w`, and
-- the buffer. The loop has (n + 1) / 2 rounds, and `w` is their number at the end.
unfoldable pub halve_loop : ℕ → ℕ → List ℕ → Option (List ℕ)
halve_loop zero w buf = some buf
halve_loop (suc rounds) w buf = do
  v ← get_elem? buf (2 * w)
  buf' ← store buf w v
  halve_loop rounds (w + 1) buf'

unfoldable pub halve : Ckpts → Option Ckpts
halve ck = do
  buf ← halve_loop ((ck.n + 1) / 2) 0 ck.buf
  some (record { buf = buf; n = (ck.n + 1) / 2; stride = ck.stride * 2 })

-- `self.buf[self.n] = offset; self.n += 1`.
unfoldable pub push : Ckpts → ℕ → Option Ckpts
push ck offset = do
  buf ← store ck.buf ck.n offset
  some (record { buf = buf; n = ck.n + 1; stride = ck.stride })

-- Ckpts::record.
unfoldable pub record_offset : Ckpts → ℕ → ℕ → Option Ckpts
record_offset ck count offset =
    if count % ck.stride == 0
    then (if ck.n == length ck.buf
        then (do half ← halve ck; if count % half.stride == 0 then push half offset else some half)
        else push ck offset)
    else some ck
