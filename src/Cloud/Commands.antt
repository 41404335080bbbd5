-- ===== src/Cloud/Commands.antt =====
-- The commands of the operator (`handle_command` and `handle_reset_and_halt_command` in
-- components/cloud/src/main.rs). What is printed is left out.
pub mod Obeyed
pub mod Answered
use Prim.Native.Char.{code}
use Prim.Native.String.{String}
use holistic_framework_for_l.Base.{
  ℕ, ◌+◌, ◌-◌, ◌*◌, Bool, true, false, ◌&&◌, ◌||◌, Option, none, some, List, [], ◌∷◌, ◌++◌, Outcome,
  ok, ◌>>=◌, ◌>>◌, ◌==◌, ltb, leb, set, u64_mod, if◌then◌else◌,
}
use holistic_framework_for_l.Slab
use holistic_framework_for_l.Slab.{Slab}
use holistic_framework_for_l.Cloud.{
  FirmwareState, unknown, correct, incorrect, Message, reset, halt, Parts, Client, identifier_str,
}
use holistic_framework_for_l.Cloud.Sending.{send_message, update_firmware}

-- The code points of a text.
abbrev pub codes : String → List ℕ
codes String.[] = []
codes (String.◌∷◌ c s) = code c ∷ codes s

-- Equality of texts.
abbrev pub same : List ℕ → List ℕ → Bool
same [] [] = true
same [] (y ∷ ys) = false
same (x ∷ xs) [] = false
same (x ∷ xs) (y ∷ ys) = x == y && same xs ys

-- `to_lowercase`, as far as it makes a difference to the names of commands.
abbrev pub lower_code : ℕ → ℕ
lower_code c = if leb b'A' c && leb c b'Z' then c + 32 else c

abbrev pub to_lowercase : List ℕ → List ℕ
to_lowercase [] = []
to_lowercase (c ∷ cs) = lower_code c ∷ to_lowercase cs

abbrev pub in_front : ℕ → List ℕ × List ℕ → List ℕ × List ℕ
in_front c (before, after) = (c ∷ before, after)

-- `split_once(' ')`, with the whole text as the command if there is no space.
abbrev pub split_command : List ℕ → List ℕ × List ℕ
split_command [] = ([], [])
split_command (c ∷ cs) = if c == b' ' then ([], cs) else in_front c (split_command cs)

abbrev pub parse_digits : List ℕ → ℕ → Option ℕ
parse_digits [] n = if ltb n u64_mod then some n else none
parse_digits (c ∷ cs) n =
    let others = parse_digits cs (n * 10 + (c - b'0')) in
    if leb b'0' c && leb c b'9' then others else none

abbrev pub parse_unsigned : List ℕ → Option ℕ
parse_unsigned [] = none
parse_unsigned (c ∷ cs) = parse_digits (c ∷ cs) 0

-- `str::parse::<usize>`: digits, perhaps behind a plus sign.
unfoldable pub parse_usize : List ℕ → Option ℕ
parse_usize [] = none
parse_usize (c ∷ cs) = if c == b'+' then parse_unsigned cs else parse_unsigned (c ∷ cs)

pub data Command : Type 0 where
  fw_update : Command
  reset_nodes : Command
  halt_nodes : Command
  -- a command that only prints, or none
  prints : Command

unfoldable pub command_of : List ℕ → Command
command_of name =
    if same name (codes "fwupdate") || same name (codes "fwu")
    then fw_update
    else if same name (codes "reset") || same name (codes "r")
    then reset_nodes
    else if same name (codes "halt") || same name (codes "h")
    then halt_nodes
    else prints

abbrev pub is_incorrect : FirmwareState → Bool
is_incorrect incorrect = true
is_incorrect correct = false
is_incorrect unknown = false

module _ (P : Parts) where
  -- A result, where `false` stands for an error, and the clients.
  abbrev pub Obeyed : Type 0
  Obeyed = Outcome (Bool × Slab (Client P))

  abbrev pub report : Bool × Client P → Outcome (Client P)
  report (true, client) = ok client
  report (false, client) = identifier_str P client >> ok client

  -- One client of the loop of `fwupdate`, which goes on after an error.
  abbrev pub update_client : List ℕ → Client P → Outcome (Client P)
  update_client binary client =
      if is_incorrect client.firmware_state
      then (identifier_str P client >> (update_firmware P client binary >>= report))
      else ok client

  unfoldable pub update_all : List ℕ → Slab (Client P) → Outcome (Slab (Client P))
  update_all binary [] = ok []
  update_all binary (none ∷ clients) = do others ← update_all binary clients; ok (none ∷ others)
  update_all binary (some client ∷ clients) = do
    client' ← update_client binary client
    others ← update_all binary clients
    ok (some client' ∷ others)

  abbrev pub after_sending : Obeyed → Slab (Client P) → Bool × Client P → Obeyed
  after_sending others clients (true, client) =
      others >>= λ (done, clients'). ok (done, some client ∷ clients')
  after_sending others clients (false, client) = ok (false, some client ∷ clients)

  -- The loop over all clients, which the first error ends.
  unfoldable pub send_all : Message → Slab (Client P) → Obeyed
  send_all message [] = ok (true, [])
  send_all message (none ∷ clients) =
      send_all message clients >>= λ (done, clients'). ok (done, none ∷ clients')
  send_all message (some client ∷ clients) =
      send_message P client message >>= after_sending (send_all message clients) clients

  abbrev pub send_to : Message → ℕ → Option (Client P) → Slab (Client P) → Obeyed
  send_to message index none clients = ok (false, clients)
  send_to message index (some client) clients = do
    identifier_str P client
    (done, client') ← send_message P client message
    ok (done, set clients index (some client'))

  abbrev pub send_to_index : Message → Option ℕ → Slab (Client P) → Obeyed
  send_to_index message none clients = ok (false, clients)
  send_to_index message (some index) clients =
      send_to message index (Slab.get clients index) clients

  unfoldable pub handle_reset_and_halt_command : Bool → List ℕ → Slab (Client P) → Obeyed
  handle_reset_and_halt_command is_reset argument clients =
      let message = if is_reset then reset else halt in
      if same argument (codes "all")
      then send_all message clients
      else send_to_index message (parse_usize argument) clients

  abbrev pub obey : Command → List ℕ → Slab (Client P) → List ℕ → Obeyed
  obey fw_update argument clients binary =
      update_all binary clients >>= λ clients'. ok (true, clients')
  obey reset_nodes argument clients binary = handle_reset_and_halt_command true argument clients
  obey halt_nodes argument clients binary = handle_reset_and_halt_command false argument clients
  obey prints argument clients binary = ok (true, clients)

  unfoldable pub handle_command : List ℕ → Slab (Client P) → List ℕ → Obeyed
  handle_command input clients binary =
      let (command, argument) = split_command input in
      obey (command_of (to_lowercase command)) argument clients binary
