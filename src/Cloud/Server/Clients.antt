-- ===== src/Cloud/Server/Clients.antt =====
-- What happens to the slots of the clients keeps them named (components/cloud/src/main.rs and
-- slab.rs).
use holistic_framework_for_l.Base.{
  ℕ, zero, suc, ◌≡◌, ap, ◌∙◌, inl, inr, Bool, true, false, Bool-cases, Option, none, some, List, [],
  ◌∷◌, ◌++◌, length, set, get_elem?, ltb,
}
use mathlib.Core.Path.{subst}
use holistic_framework_for_l.Slab
use holistic_framework_for_l.Slab.{Slab, flat, insert_at}
use holistic_framework_for_l.Cloud.{Message, Parts, Client}
use holistic_framework_for_l.Cloud.Sending.Kept.{Keeps}
use holistic_framework_for_l.Cloud.Commands.Obeyed.{
  IsNamed, Each, Pairwise, IsServed, updated, spared,
}
use holistic_framework_for_l.Cloud.Commands.Answered.{
  IsSentTo, to_none, past_free, past_client, failing, IsObeyed, to_all, to_one, to_nobody,
}

module _ (P : Parts) where
  abbrev pub AllNamed : Slab (Client P) → Type 0
  AllNamed cs = Each P (IsNamed P) cs

  pub AllNamed-set :
      (cs : Slab (Client P)) (i : ℕ) (c : Client P)
      → IsNamed P c
      → AllNamed cs
      → AllNamed (set cs i (some c))
  AllNamed-set [] i c h k = tt
  AllNamed-set (none ∷ cs) zero c h k = (h, k)
  AllNamed-set (some d ∷ cs) zero c h k = (h, k.1)
  AllNamed-set (none ∷ cs) (suc i) c h k = AllNamed-set cs i c h k
  AllNamed-set (some d ∷ cs) (suc i) c h k = (k.0, AllNamed-set cs i c h k.1)

  AllNamed-set_none : (cs : Slab (Client P)) (i : ℕ) → AllNamed cs → AllNamed (set cs i none)
  AllNamed-set_none [] i k = tt
  AllNamed-set_none (none ∷ cs) zero k = k
  AllNamed-set_none (some d ∷ cs) zero k = k.1
  AllNamed-set_none (none ∷ cs) (suc i) k = AllNamed-set_none cs i k
  AllNamed-set_none (some d ∷ cs) (suc i) k = (k.0, AllNamed-set_none cs i k.1)

  AllNamed-append :
      (cs : Slab (Client P)) (c : Client P)
      → IsNamed P c
      → AllNamed cs
      → AllNamed (cs ++ some c ∷ [])
  AllNamed-append [] c h k = (h, tt)
  AllNamed-append (none ∷ cs) c h k = AllNamed-append cs c h k
  AllNamed-append (some d ∷ cs) c h k = (k.0, AllNamed-append cs c h k.1)

  pub AllNamed-get :
      (cs : Slab (Client P)) (i : ℕ) (c : Client P)
      → flat (get_elem? cs i) ≡ some c
      → AllNamed cs
      → IsNamed P c
  AllNamed-get [] i c e k = cc
  AllNamed-get (none ∷ cs) zero c e k = cc
  AllNamed-get (some d ∷ cs) zero c e k = let same : d ≡ c = cc in subst (IsNamed P) same k.0
  AllNamed-get (none ∷ cs) (suc i) c e k = AllNamed-get cs i c e k
  AllNamed-get (some d ∷ cs) (suc i) c e k = AllNamed-get cs i c e k.1

  pub AllNamed-insert :
      (c : Client P) (cs : Slab (Client P))
      → IsNamed P c
      → AllNamed cs
      → AllNamed (Slab.insert c cs).1
  unfolding Slab.insert
  AllNamed-insert c cs h k = at (Slab.get_free_index cs)
    where
      at : (o : Option ℕ) → AllNamed (insert_at c cs o).1
      at none = AllNamed-append cs c h k
      at (some i) = AllNamed-set cs i c h k

  pub AllNamed-try_remove :
      (cs : Slab (Client P)) (i : ℕ) → AllNamed cs → AllNamed (Slab.try_remove cs i).1
  unfolding Slab.try_remove
  AllNamed-try_remove cs i k = elim (Bool-cases (ltb i (length cs))) [
    | inl inside ↦ rw inside (AllNamed-set_none cs i k)
    | inr outside ↦ rw outside k
  ]

  -- Sending keeps clients named.
  Keeps-IsNamed : (c : Client P) (r : Bool × Client P) → Keeps P c r → IsNamed P c → IsNamed P r.1
  Keeps-IsNamed c r h (inl e) = inl (ap (λ (x : Client P). x.firmware_state) h ∙ e)
  Keeps-IsNamed c r h (inr (id, e)) = inr (id, ap (λ (x : Client P). x.node_id) h ∙ e)

  pub IsServed-AllNamed :
      (binary : List ℕ) (cs ds : Slab (Client P))
      → Pairwise P (IsServed P binary) cs ds
      → AllNamed cs
      → AllNamed ds
  IsServed-AllNamed binary [] [] p k = tt
  IsServed-AllNamed binary [] (x ∷ ds) p k = absurd p
  IsServed-AllNamed binary (none ∷ cs) [] p k = absurd p
  IsServed-AllNamed binary (some c ∷ cs) [] p k = absurd p
  IsServed-AllNamed binary (none ∷ cs) (none ∷ ds) p k = IsServed-AllNamed binary cs ds p k
  IsServed-AllNamed binary (none ∷ cs) (some d ∷ ds) p k = absurd p
  IsServed-AllNamed binary (some c ∷ cs) (none ∷ ds) p k = absurd p
  IsServed-AllNamed binary (some c ∷ cs) (some d ∷ ds) p k =
      (served c d p.0 k.0, IsServed-AllNamed binary cs ds p.1 k.1)
    where
      served : (c d : Client P) → IsServed P binary c d → IsNamed P c → IsNamed P d
      served c _ (updated done d h u s) n = Keeps-IsNamed c (done, d) s n
      served c _ (spared h) n = n

  IsSentTo-AllNamed :
      (m : Message) (cs : Slab (Client P)) (r : Bool × Slab (Client P))
      → IsSentTo P m cs r
      → AllNamed cs
      → AllNamed r.1
  IsSentTo-AllNamed m _ _ to_none k = k
  IsSentTo-AllNamed m _ _ (past_free cs ds done s) k = IsSentTo-AllNamed m cs (done, ds) s k
  IsSentTo-AllNamed m _ _ (past_client c d cs ds done t s) k =
      (Keeps-IsNamed c (true, d) t.1 k.0, IsSentTo-AllNamed m cs (done, ds) s k.1)
  IsSentTo-AllNamed m _ _ (failing c d cs t) k = (Keeps-IsNamed c (false, d) t.1 k.0, k.1)

  pub IsObeyed-AllNamed :
      (m : Message) (argument : List ℕ) (cs : Slab (Client P)) (r : Bool × Slab (Client P))
      → IsObeyed P m argument cs r
      → AllNamed cs
      → AllNamed r.1
  unfolding Slab.get
  IsObeyed-AllNamed m argument cs r (to_all _ h s) k = IsSentTo-AllNamed m cs r s k
  IsObeyed-AllNamed m argument cs _ (to_one i c d done e g t) k =
      AllNamed-set cs i d (Keeps-IsNamed c (done, d) t.1 (AllNamed-get cs i c g k)) k
  IsObeyed-AllNamed m argument cs _ (to_nobody h) k = k
