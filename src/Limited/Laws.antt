-- ===== src/Limited/Laws.antt =====
-- internal/io/limitedwriter.go: the limit, over calls in a row.
use notation_go_lib.Base.{
  ℕ, inl, inr, ◌+◌, ◌≤◌, ◌≡◌, refl, List, [], ◌∷◌, arith, length, take, ltb, nat_eq, Bool-cases,
}
use notation_go_lib.Limited.{Writer, LimitedWriter, cut_off, write, write_all}

module _ {W : Type 0} (under : Writer W) where
  -- `io.Writer`: no more bytes are taken than were given.
  abbrev pub TakesNoMore : Type 0
  TakesNoMore = (w : W) (p : List ℕ) → (under w p).0.0 ≤ length p

  length-take : (n : ℕ) (p : List ℕ) → n ≤ length p → length (take n p) ≡ n
  length-take ℕ.zero p le = refl
  length-take (ℕ.suc n) [] le = omega (arith, le)
  length-take (ℕ.suc n) (x ∷ p) le = omega (arith, length-take n p (omega (arith, le)))

  cut_off-fits : (n : ℕ) (p : List ℕ) → length (cut_off n p) ≤ n
  cut_off-fits n p = elim (Bool-cases (ltb n (length p))) [
    | inl over ↦ rw over (omega (arith, length-take n p (ground (arith, over))))
    | inr fits ↦ rw fits (ground (arith, fits))
  ]

  write_one :
      (l : LimitedWriter W) (p : List ℕ)
      → TakesNoMore
      → (write under l p).0.0 + (write under l p).1.remaining ≡ l.remaining
  unfolding write
  write_one l p contract = elim (Bool-cases (nat_eq l.remaining 0)) [
    | inl full ↦ rw (full, write) (omega arith)
    | inr room ↦
        rw (room, write)
          (omega (arith, contract l.writer (cut_off l.remaining p), cut_off-fits l.remaining p))
  ]

  -- Over a writer that takes no more than it is given, the bytes that a limited writer passes on, in
  -- all its calls, and what it may still pass on add up to its limit: the limit is never exceeded.
  pub write_all-limit :
      (l : LimitedWriter W) (ps : List (List ℕ))
      → TakesNoMore
      → (write_all under l ps).0 + (write_all under l ps).1.remaining ≡ l.remaining
  unfolding write_all
  write_all-limit l [] contract = omega arith
  write_all-limit l (p ∷ ps) contract =
      omega (arith, write_one l p contract, write_all-limit (write under l p).1 ps contract)
