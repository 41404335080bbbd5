-- ===== src/Colors.antt =====
-- The colours in which the cloud service prints its clients (`Colors` in
-- components/cloud/src/client.rs). The hash map is an association list, the vector a list whose end
-- is popped.
pub mod Assignment
use holistic_framework_for_l.Base.{
  ℕ, Option, none, some, List, [], ◌∷◌, Outcome, ok, panic, ◌==◌, if◌then◌else◌,
}

-- `RGBColor`
abbrev pub RgbColor : Type 0
RgbColor = ℕ × ℕ × ℕ

pub record Colors : Type 0 where
  pub assigned : List (ℕ × RgbColor)
  pub left : List RgbColor

unfoldable pub new : Colors
new = record {
  assigned = [];
  left =
      (41, 211, 199)
      ∷ (255, 255, 179)
      ∷ (190, 186, 218)
      ∷ (251, 128, 114)
      ∷ (128, 177, 211)
      ∷ (253, 180, 98)
      ∷ (179, 222, 105)
      ∷ (252, 205, 229)
      ∷ [];
}

-- `HashMap::get`
abbrev pub lookup : List (ℕ × RgbColor) → ℕ → Option RgbColor
lookup [] id = none
lookup ((i, color) ∷ rest) id = if i == id then some color else lookup rest id

abbrev pub behind : RgbColor → Option (RgbColor × List RgbColor) → RgbColor × List RgbColor
behind c none = (c, [])
behind c (some (last, init)) = (last, c ∷ init)

-- `Vec::pop`: the last element and the others.
abbrev pub pop_last : List RgbColor → Option (RgbColor × List RgbColor)
pop_last [] = none
pop_last (c ∷ cs) = some (behind c (pop_last cs))

-- What is done for a client without a colour.
abbrev pub assign : Colors → ℕ → Option (RgbColor × List RgbColor) → Outcome (RgbColor × Colors)
assign colors node_id none = panic
assign colors node_id (some (color, left)) =
    ok (color, record { assigned = (node_id, color) ∷ colors.assigned; left = left })

abbrev pub get_or_assign : Colors → ℕ → Option RgbColor → Outcome (RgbColor × Colors)
get_or_assign colors node_id (some color) = ok (color, colors)
get_or_assign colors node_id none = assign colors node_id (pop_last colors.left)

unfoldable pub get_color : Colors → ℕ → Outcome (RgbColor × Colors)
get_color colors node_id = get_or_assign colors node_id (lookup colors.assigned node_id)
