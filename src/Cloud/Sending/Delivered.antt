-- ===== src/Cloud/Sending/Delivered.antt =====
-- What `send_message` has written when it returns (components/cloud/src/client.rs).
use holistic_framework_for_l.Base.{
  ℕ, zero, suc, ◌+◌, ◌≤◌, ◌≡◌, refl, sym, ap, ◌∙◌, inl, inr, Bool, true, false, Bool-cases, List,
  [], ◌∷◌, ◌++◌, arith, length, take, drop, take-append-drop, length-drop, Returns, Returns-map,
  ◌==◌,
}
use mathlib.Core.List.{append_assoc, append-nil}
use holistic_framework_for_l.Cloud.{WriteResult, written, Stream, IsPatient}
use holistic_framework_for_l.Cloud.Sending.{after_write, write_all}

module _ (S : Stream) where
  -- The bytes that have been taken: all of them, or, with an error, those in front.
  pub data Delivered (buf : List ℕ) (c : S.Connection) : Bool × S.Connection → Type 0 where
    whole : (c' : S.Connection) → S.sent c' ≡ S.sent c ++ buf → Delivered buf c (true, c')
    part :
        (c' : S.Connection) (front rest : List ℕ)
        → front ++ rest ≡ buf
        → S.sent c' ≡ S.sent c ++ front
        → Delivered buf c (false, c')

  -- The rest of a buffer is written after its front.
  Delivered-behind :
      (front rest buf : List ℕ) (c c' : S.Connection) (r : Bool × S.Connection)
      → front ++ rest ≡ buf
      → S.sent c' ≡ S.sent c ++ front
      → Delivered rest c' r
      → Delivered buf c r
  Delivered-behind front rest buf c c' _ e s (whole d h) =
      whole d
        (h ∙ ap (λ l. l ++ rest) s ∙ append_assoc (S.sent c) front rest ∙ ap (λ l. S.sent c ++ l) e)
  Delivered-behind front rest buf c c' _ e s (part d more left k h) =
      part d (front ++ more) left (append_assoc front more left ∙ ap (λ l. front ++ l) k ∙ e)
        (h ∙ ap (λ l. l ++ more) s ∙ append_assoc (S.sent c) front more)

  -- A write that took nothing changes nothing.
  Delivered-later :
      (buf : List ℕ) (c c' : S.Connection) (r : Bool × S.Connection)
      → S.sent c' ≡ S.sent c
      → Delivered buf c' r
      → Delivered buf c r
  Delivered-later buf c c' r s h =
      Delivered-behind [] buf buf c c' r refl (s ∙ sym (append-nil (S.sent c))) h

  -- If put-off writes use up patience, then with a round for each byte and for each put-off write that
  -- is left the loop ends, and what has been taken is all of the bytes, or with an error their front.
  pub write_all-Delivered :
      (patient : IsPatient S) (fuel : ℕ) (buf : List ℕ) (c : S.Connection)
      → length buf + S.patience c ≤ fuel
      → Returns (Delivered buf c) (write_all S fuel buf c)
  unfolding write_all
  write_all-Delivered patient zero [] c h = whole c (sym (append-nil (S.sent c)))
  write_all-Delivered patient zero (b ∷ bs) c h = absurd (omega arith)
  write_all-Delivered patient (suc fuel) [] c h = whole c (sym (append-nil (S.sent c)))
  write_all-Delivered patient (suc fuel) (b ∷ bs) c h =
      step (S.write (b ∷ bs) c).0 (S.write (b ∷ bs) c).1 refl (write_all-Delivered patient fuel)
    where
      step :
          (w : WriteResult) (c' : S.Connection)
          → S.write (b ∷ bs) c ≡ (w, c')
          → ((l : List ℕ) (d : S.Connection)
              → length l + S.patience d ≤ fuel
              → Returns (Delivered l d) (write_all S fuel l d))
          → Returns (Delivered (b ∷ bs) c) (after_write S (write_all S fuel) (b ∷ bs) (w, c'))
      step WriteResult.would_block c' e again =
          let s = S.write-would_block (b ∷ bs) c c' e in
          let p = patient.would_block-patience (b ∷ bs) c c' e in
          Returns-map _ _ (write_all S fuel (b ∷ bs) c')
            (λ r k. Delivered-later (b ∷ bs) c c' r s k) (again (b ∷ bs) c' (omega arith))
      step WriteResult.interrupted c' e again =
          let s = S.write-interrupted (b ∷ bs) c c' e in
          let p = patient.interrupted-patience (b ∷ bs) c c' e in
          Returns-map _ _ (write_all S fuel (b ∷ bs) c')
            (λ r k. Delivered-later (b ∷ bs) c c' r s k) (again (b ∷ bs) c' (omega arith))
      step WriteResult.failed c' e again =
          part c' [] (b ∷ bs) refl (S.write-failed (b ∷ bs) c c' e ∙ sym (append-nil (S.sent c)))
      step (written n) c' e again =
          let (few, s) = S.write-written (b ∷ bs) c c' n e in
          let p = patient.written-patience (b ∷ bs) c c' n e in
          elim (Bool-cases (n == 0)) [
            | inl nothing ↦
                rw nothing
                  (part c' (take n (b ∷ bs)) (drop n (b ∷ bs)) (take-append-drop n (b ∷ bs)) s)
            | inr some_bytes ↦ rw some_bytes (
                Returns-map _ _ (write_all S fuel (drop n (b ∷ bs)) c')
                  (λ r k.
                    Delivered-behind (take n (b ∷ bs)) (drop n (b ∷ bs)) (b ∷ bs) c c' r
                      (take-append-drop n (b ∷ bs)) s k)
                  (again (drop n (b ∷ bs)) c' (ground (arith, length-drop n (b ∷ bs)))))
          ]
