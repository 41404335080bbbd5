-- ===== src/Firmware/Bus/Transactions.antt =====
-- What a transaction does on the bus (components/firmware/src/iv.rs).
use holistic_framework_for_l.Base.{
  ◌≡◌, refl, sym, ap, ◌∙◌, true, false, Option, none, some, List, [], ◌∷◌,
}
use holistic_framework_for_l.Firmware.Bus.{
  Operation, read, write, transfer, transfer_in_place, delay_ns, SpiBus, flushed, operate,
  then_operate, operate_all, or_else, transaction,
}

module _ (B : SpiBus) where
  -- The operations are carried out one after the other, each while the radio is selected, up to the
  -- first that fails.
  pub data Performs
      : List Operation → B.State → Option B.Error → List Operation → B.State → Type 0 where
    finished : (s : B.State) → Performs [] s none [] s
    fails :
        (op op' : Operation) (ops : List Operation) (e : B.Error) (s s' : B.State)
        → B.nss s ≡ false
        → operate B op s ≡ (some e, op', s')
        → Performs (op ∷ ops) s (some e) (op' ∷ ops) s'
    continues :
        (op op' : Operation) (ops ops' : List Operation) (e : Option B.Error) (s s' t : B.State)
        → B.nss s ≡ false
        → operate B op s ≡ (none, op', s')
        → Performs ops s' e ops' t
        → Performs (op ∷ ops) s e (op' ∷ ops') t

  nss-operate : (op : Operation) (s : B.State) → B.nss (operate B op s).2 ≡ B.nss s
  unfolding operate
  nss-operate (read buf) s = B.nss-read_bytes buf s
  nss-operate (write buf) s = B.nss-write_bytes buf s
  nss-operate (transfer r w) s = B.nss-transfer_bytes r w s
  nss-operate (transfer_in_place buf) s = B.nss-transfer_bytes_in_place buf s
  nss-operate (delay_ns ns) s = of_flush (B.flush s) (B.nss-flush s)
    where
      of_flush :
          (f : Option B.Error × B.State) → B.nss f.1 ≡ B.nss s → B.nss (flushed B ns f).2 ≡ B.nss s
      of_flush (some e, s') h = h
      of_flush (none, s') h = B.nss-after_nanos ns s' ∙ h

  abbrev PerformsTo : List Operation → B.State → Option B.Error × List Operation × B.State → Type 0
  PerformsTo ops s r = Performs ops s r.0 r.1 r.2

  operate_all-Performs :
      (ops : List Operation) (s : B.State)
      → B.nss s ≡ false
      → PerformsTo ops s (operate_all B ops s)
  unfolding operate_all
  operate_all-Performs [] s h = finished s
  operate_all-Performs (op ∷ ops) s h = after (operate B op s) refl (operate_all-Performs ops)
    where
      after :
          (r : Option B.Error × Operation × B.State)
          → operate B op s ≡ r
          → ((t : B.State) → B.nss t ≡ false → PerformsTo ops t (operate_all B ops t))
          → PerformsTo (op ∷ ops) s (then_operate B (operate_all B ops) ops r)
      after (some e, op', s') q k = fails op op' ops e s s' h q
      after (none, op', s') q k =
          let r = operate_all B ops s' in
          continues op op' ops r.1 r.0 s s' r.2 h q
            (k s' (sym (ap (λ x. B.nss x.2) q) ∙ nss-operate op s ∙ h))

  -- A transaction and how it ends.
  pub record IsTransacted (ops : List Operation) (s : B.State)
      (r : Option B.Error × List Operation × B.State) : Type 0 where
    pub result : Option B.Error
    pub last : B.State
    pub performed : Performs ops (B.set_nss false s) result r.1 last
    pub released : r.2 ≡ B.set_nss true (B.flush last).1
    pub deselected : B.nss r.2 ≡ true
    pub reported : r.0 ≡ or_else B result (B.flush last).0

  -- A transaction selects the radio, carries out its operations up to the first that fails, and then,
  -- also after a failure, flushes the bus and deselects the radio. It reports the failure of the
  -- operation, or else that of the flush.
  pub transaction-IsTransacted :
      (ops : List Operation) (s : B.State) → IsTransacted ops s (transaction B ops s)
  unfolding transaction
  transaction-IsTransacted ops s = record {
    result = (operate_all B ops (B.set_nss false s)).0;
    last = (operate_all B ops (B.set_nss false s)).2;
    performed = operate_all-Performs ops (B.set_nss false s) (B.nss-set_nss false s);
    released = refl;
    deselected = B.nss-set_nss true _;
    reported = refl;
  }
