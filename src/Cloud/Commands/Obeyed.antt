-- ===== src/Cloud/Commands/Obeyed.antt =====
-- What the command to update the firmware does to the clients (components/cloud/src/main.rs).
use holistic_framework_for_l.Base.{
  ℕ, ◌<◌, ◌≡◌, sym, ap, ◌∙◌, ◌⊎◌, inl, inr, Bool, true, false, Bool-cases, none, some, List, [],
  ◌∷◌, length, Returns, Returns-bind, Returns-Whenever, HasValue, u32_mod,
}
use holistic_framework_for_l.Slab.{Slab}
use holistic_framework_for_l.Cloud.{unknown, IsPatient, Parts, Client, identifier_str}
use holistic_framework_for_l.Cloud.Sending.{update_firmware}
use holistic_framework_for_l.Cloud.Sending.Updates.{IsUpdated, update_firmware-IsUpdated}
use holistic_framework_for_l.Cloud.Sending.Kept.{Keeps, update_firmware-Keeps}
use holistic_framework_for_l.Cloud.Commands.{is_incorrect, report, update_client, update_all}

module _ (P : Parts) where
  -- A client whose firmware is known has told who it is.
  abbrev pub IsNamed : Client P → Type 0
  IsNamed c = (c.firmware_state ≡ unknown) ⊎ HasValue c.node_id

  abbrev pub Each : (Client P → Type 0) → Slab (Client P) → Type 0
  Each R [] = Unit
  Each R (none ∷ cs) = Each R cs
  Each R (some c ∷ cs) = R c × Each R cs

  -- Each client is related to the one in its place.
  abbrev pub Pairwise : (Client P → Client P → Type 0) → Slab (Client P) → Slab (Client P) → Type 0
  Pairwise R [] [] = Unit
  Pairwise R (none ∷ cs) (none ∷ ds) = Pairwise R cs ds
  Pairwise R (some c ∷ cs) (some d ∷ ds) = R c d × Pairwise R cs ds
  Pairwise R _ _ = ⊥

  -- A client with other firmware has been sent the image, at least in part; any other is the same.
  pub data IsServed (binary : List ℕ) (c : Client P) : Client P → Type 0 where
    updated :
        (done : Bool) (d : Client P)
        → is_incorrect c.firmware_state ≡ true
        → IsUpdated P binary c (done, d)
        → Keeps P c (done, d)
        → IsServed binary c d
    spared : is_incorrect c.firmware_state ≡ false → IsServed binary c c

  identifier_str-returns :
      (c : Client P) → HasValue c.node_id → Returns (λ u. Unit {0}) (identifier_str P c)
  unfolding identifier_str
  identifier_str-returns c (id, e) = rw e tt

  incorrect-HasValue :
      (c : Client P) → is_incorrect c.firmware_state ≡ true → IsNamed c → HasValue c.node_id
  incorrect-HasValue c h (inl e) =
      let mixed : is_incorrect unknown ≡ true = ap is_incorrect (sym e) ∙ h in cc
  incorrect-HasValue c h (inr k) = k

  update_client-IsServed :
      (patient : IsPatient P.stream) (binary : List ℕ) (c : Client P)
      → length binary < u32_mod
      → IsNamed c
      → Returns (IsServed binary c) (update_client P binary c)
  update_client-IsServed patient binary c small k =
      elim (Bool-cases (is_incorrect c.firmware_state)) [
        | inr other ↦ rw other (spared other)
        | inl old ↦
            let name = incorrect-HasValue c old k in
            rw old (
              Returns-bind (λ u. Unit {0}) (IsServed binary c) (identifier_str P c) _
                (identifier_str-returns c name)
                (λ u n.
                  Returns-bind _ (IsServed binary c) (update_firmware P c binary) _
                    (Returns-Whenever (IsUpdated P binary c) (Keeps P c)
                      (update_firmware P c binary)
                      (update_firmware-IsUpdated P c binary patient small)
                      (update_firmware-Keeps P c binary))
                    (λ r (sent, kept). reported old name r sent kept)))
      ]
    where
      reported :
          is_incorrect c.firmware_state ≡ true
          → HasValue c.node_id
          → (r : Bool × Client P) → IsUpdated P binary c r
          → Keeps P c r
          → Returns (IsServed binary c) (report P r)
      reported old name (true, d) sent kept = updated true d old sent kept
      reported old (id, e) (false, d) sent kept =
          Returns-bind (λ u. Unit {0}) (IsServed binary c) (identifier_str P d) _
            (identifier_str-returns d (id, ap (λ (x : Client P). x.node_id) kept ∙ e))
            (λ u n. updated false d old sent kept)

  -- If the peers go on reading and every client whose firmware is known has told who it is, `fwupdate`
  -- returns. It sends the image to exactly the clients that run other firmware, whether or not it fails
  -- for one of them, and changes nothing of them but the connection.
  pub update_all-IsServed :
      (binary : List ℕ) (clients : Slab (Client P))
      → IsPatient P.stream
      → length binary < u32_mod
      → Each IsNamed clients
      → Returns (Pairwise (IsServed binary) clients) (update_all P binary clients)
  unfolding update_all
  update_all-IsServed binary [] patient small h = tt
  update_all-IsServed binary (none ∷ cs) patient small h =
      Returns-bind (Pairwise (IsServed binary) cs) _ (update_all P binary cs) _
        (update_all-IsServed binary cs patient small h) (λ ds r. r)
  update_all-IsServed binary (some c ∷ cs) patient small h =
      Returns-bind (IsServed binary c) (Pairwise (IsServed binary) (some c ∷ cs))
        (update_client P binary c) _ (update_client-IsServed patient binary c small h.0)
        (λ d s.
          Returns-bind (Pairwise (IsServed binary) cs) _ (update_all P binary cs) _
            (update_all-IsServed binary cs patient small h.1) (λ ds r. (s, r)))
