-- ===== src/Firmware/Bus.antt =====
-- A transaction with the radio over SPI (`SubghzSpiDevice` in components/firmware/src/iv.rs).
pub mod Transactions
use holistic_framework_for_l.Base.{ℕ, ◌≡◌, Bool, true, false, Option, none, some, List, [], ◌∷◌}

pub data Operation : Type 0 where
  read : List ℕ → Operation
  write : List ℕ → Operation
  transfer : List ℕ → List ℕ → Operation
  transfer_in_place : List ℕ → Operation
  delay_ns : ℕ → Operation

-- An `SpiBus` of embedded-hal, the chip select line of the radio, and the timer. A buffer that is
-- written is returned. `nss` is the level of the line, which only `set_nss` changes.
pub record SpiBus : Type 1 where
  pub State : Type 0
  pub Error : Type 0
  pub read_bytes : List ℕ → State → Option Error × List ℕ × State
  pub write_bytes : List ℕ → State → Option Error × State
  pub transfer_bytes : List ℕ → List ℕ → State → Option Error × List ℕ × State
  pub transfer_bytes_in_place : List ℕ → State → Option Error × List ℕ × State
  pub flush : State → Option Error × State
  pub after_nanos : ℕ → State → State
  pub set_nss : Bool → State → State
  pub nss : State → Bool
  pub nss-set_nss : (level : Bool) (s : State) → nss (set_nss level s) ≡ level
  pub nss-read_bytes : (b : List ℕ) (s : State) → nss (read_bytes b s).2 ≡ nss s
  pub nss-write_bytes : (b : List ℕ) (s : State) → nss (write_bytes b s).1 ≡ nss s
  pub nss-transfer_bytes : (r w : List ℕ) (s : State) → nss (transfer_bytes r w s).2 ≡ nss s
  pub nss-transfer_bytes_in_place :
      (b : List ℕ) (s : State) → nss (transfer_bytes_in_place b s).2 ≡ nss s
  pub nss-flush : (s : State) → nss (flush s).1 ≡ nss s
  pub nss-after_nanos : (ns : ℕ) (s : State) → nss (after_nanos ns s) ≡ nss s

module _ (B : SpiBus) where
  abbrev pub flushed : ℕ → Option B.Error × B.State → Option B.Error × Operation × B.State
  flushed ns (some e, s) = (some e, delay_ns ns, s)
  flushed ns (none, s) = (none, delay_ns ns, B.after_nanos ns s)

  -- One operation.
  unfoldable pub operate : Operation → B.State → Option B.Error × Operation × B.State
  operate (read buf) s = let (e, buf', s') = B.read_bytes buf s in (e, read buf', s')
  operate (write buf) s = let (e, s') = B.write_bytes buf s in (e, write buf, s')
  operate (transfer r w) s = let (e, r', s') = B.transfer_bytes r w s in (e, transfer r' w, s')
  operate (transfer_in_place buf) s =
      let (e, buf', s') = B.transfer_bytes_in_place buf s in (e, transfer_in_place buf', s')
  operate (delay_ns ns) s = flushed ns (B.flush s)

  abbrev pub then_operate :
      (B.State → Option B.Error × List Operation × B.State)
      → List Operation
      → Option B.Error × Operation × B.State
      → Option B.Error × List Operation × B.State
  then_operate others ops (some e, op, s) = (some e, op ∷ ops, s)
  then_operate others ops (none, op, s) = let (e, ops', s') = others s in (e, op ∷ ops', s')

  -- The loop over the operations, which the first error ends.
  unfoldable pub operate_all : List Operation → B.State → Option B.Error × List Operation × B.State
  operate_all [] s = (none, [], s)
  operate_all (op ∷ ops) s = then_operate (operate_all ops) ops (operate op s)

  abbrev pub or_else : Option B.Error → Option B.Error → Option B.Error
  or_else (some e) f = some e
  or_else none f = f

  -- The result, the operations with the buffers that have been written, and the bus afterwards.
  unfoldable pub transaction : List Operation → B.State → Option B.Error × List Operation × B.State
  transaction operations s =
      let (op_res, operations', s') = operate_all operations (B.set_nss false s) in
      let (flush_res, s'') = B.flush s' in
      (or_else op_res flush_res, operations', B.set_nss true s'')
