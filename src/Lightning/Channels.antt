-- ===== src/Lightning/Channels.antt =====
-- The channels of a node (components/protocol/lightning/src/channel.rs).
pub mod Choice
use holistic_framework_for_l.Base.{
  ℕ, ◌%◌, Bool, true, false, not, ◌||◌, Option, none, some, List, length, get_elem?, keep, range,
  Outcome, ok, ◌>>=◌, ◌>>◌, assert, Rng, next_u32, ◌==◌,
}
use holistic_framework_for_l.Lightning.Params.{Channel, num_channels}

pub record Channels : Type 0 where
  pub public : Channel
  pub parent : Option Channel
  pub children : Option Channel
  pub parents_parent_channel : Option Channel

-- `Channels::default`
abbrev pub default_channels : Channels
default_channels = record {
  public = 0;
  parent = none;
  children = none;
  parents_parent_channel = none;
}

-- `o == Some(c)`
abbrev pub is_channel : Option Channel → Channel → Bool
is_channel none c = false
is_channel (some d) c = d == c

abbrev pub is_free : Channels → Channel → Bool
is_free chs c = not (
    is_channel (some chs.public) c
    || is_channel chs.parent c
    || is_channel chs.parents_parent_channel c)

unfoldable pub free_channels : Channels → List Channel
free_channels chs = keep (is_free chs) (range 0 num_channels)

-- `Channels::set_random_children_channel`; the remainder by zero would be a panic.
unfoldable pub set_random_children_channel : Channels → Rng → Outcome Channels
set_random_children_channel chs rng =
    let n = length (free_channels chs) in
    assert (not (n == 0))
    >> ok (record chs { children = get_elem? (free_channels chs) (next_u32 rng % n) })
