-- ===== src/Base/Draws.antt =====
-- `RngCore`, which the caller supplies: the numbers that its generator is going to return. All that
-- is assumed of them is that each is a u32.
use Prim.Native.Nat.{ℕ, suc}
use holistic_framework_for_l.Base.Words.{as_u32}

abbrev pub Rng : Type 0
Rng = ℕ → ℕ

-- `next_u32`: the number, and the generator after the call.
abbrev pub next_u32 : Rng → ℕ
next_u32 rng = as_u32 (rng 0)

abbrev pub advance : Rng → Rng
advance rng n = rng (suc n)
