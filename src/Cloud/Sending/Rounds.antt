-- ===== src/Cloud/Sending/Rounds.antt =====
-- The number of rounds that the loop of `send_message` is followed for (components/cloud/src/client.rs).
use holistic_framework_for_l.Base.{
  ℕ, zero, suc, ◌≤◌, ◌≡◌, arith, Bool, Bool-cases, inl, inr, List, [], ◌∷◌, drop, ok, ◌==◌,
}
use holistic_framework_for_l.Cloud.{WriteResult, written, Stream}
use holistic_framework_for_l.Cloud.Sending.{Written, after_write, write_all}

module _ (S : Stream) where
  after_write-more :
      (again more : List ℕ → S.Connection → Written S) (buf : List ℕ) (w : WriteResult)
      (c : S.Connection) (r : Bool × S.Connection)
      → ((l : List ℕ) (d : S.Connection) → again l d ≡ ok r → more l d ≡ ok r)
      → after_write S again buf (w, c) ≡ ok r
      → after_write S more buf (w, c) ≡ ok r
  after_write-more again more buf WriteResult.would_block c r same e = same buf c e
  after_write-more again more buf WriteResult.interrupted c r same e = same buf c e
  after_write-more again more buf WriteResult.failed c r same e = e
  after_write-more again more buf (written n) c r same e = elim (Bool-cases (n == 0)) [
    | inl nothing ↦ rw nothing (rw nothing at e)
    | inr some_bytes ↦ rw some_bytes (same (drop n buf) c (rw some_bytes at e))
  ]

  -- A loop that is over stays so, with the same result, if it is followed for more rounds: what the loop
  -- returns does not depend on the rounds that it is given.
  write_all-more :
      (fuel more : ℕ) (buf : List ℕ) (c : S.Connection) (r : Bool × S.Connection)
      → fuel ≤ more
      → write_all S fuel buf c ≡ ok r
      → write_all S more buf c ≡ ok r
  unfolding write_all
  write_all-more zero zero buf c r h e = e
  write_all-more zero (suc more) [] c r h e = e
  write_all-more zero (suc more) (b ∷ bs) c r h e = cc
  write_all-more (suc fuel) zero buf c r h e = absurd (omega arith)
  write_all-more (suc fuel) (suc more) [] c r h e = e
  write_all-more (suc fuel) (suc more) (b ∷ bs) c r h e =
      after_write-more (write_all S fuel) (write_all S more) (b ∷ bs) (S.write (b ∷ bs) c).0
        (S.write (b ∷ bs) c).1 r (λ l d k. write_all-more fuel more l d r (omega arith) k) e
