-- ===== src/Limited.antt =====
-- internal/io/limitedwriter.go. The underlying writer is a function on its own state `W`: the number
-- of bytes that it took and its error. A limit that is not positive is 0: the code only asks
-- whether the rest is positive, and what is taken beyond it leaves nothing.
pub mod Laws
use notation_go_lib.Base.{
  ℕ, zero, suc, ◌-◌, ◌+◌, Bool, Option, none, some, List, [], ◌∷◌, if◌then◌else◌, nat_eq, ltb,
  length, take,
}

pub data WriteError : Type 0 where
  limit_exceeded writer_failed : WriteError

abbrev pub Writer : Type 0 → Type 0
Writer W = W → List ℕ → (ℕ × Option WriteError) × W

-- `LimitedWriter`.
pub record LimitedWriter (W : Type 0) : Type 0 where
  pub writer : W
  pub remaining : ℕ

-- `LimitWriter`.
abbrev pub limit_writer : {W : Type 0} → W → ℕ → LimitedWriter W
limit_writer w limit = record { writer = w; remaining = limit }

abbrev pub cut_off : ℕ → List ℕ → List ℕ
cut_off remaining p = if ltb remaining (length p) then take remaining p else p

-- `Write`: the number of bytes and the error, and the writer that is left.
unfoldable pub write :
    {W : Type 0} → Writer W → LimitedWriter W → List ℕ → (ℕ × Option WriteError) × LimitedWriter W
write under l p =
    if nat_eq l.remaining 0
    then ((0, some limit_exceeded), l)
    else let ((n, e), w) = under l.writer (cut_off l.remaining p) in
      ((n, e), record { writer = w; remaining = l.remaining - n })

-- Calls in a row: the bytes that were taken in all, and the writer that is left.
unfoldable pub write_all :
    {W : Type 0} → Writer W → LimitedWriter W → List (List ℕ) → ℕ × LimitedWriter W
unfolding write
write_all under l [] = (0, l)
write_all under l (p ∷ ps) =
    let ((n, e), l') = write under l p in
    let (rest, left) = write_all under l' ps in (n + rest, left)
