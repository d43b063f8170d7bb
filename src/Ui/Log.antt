-- ===== src/Ui/Log.antt =====
-- `LogPanel` of src/ui/LogPanel.cpp and LogPanel.hpp: the log of what is received, the colours of its
-- lines, and when the panel scrolls to the end. Lines are lists of character codes; the drawing is Dear
-- ImGui's. The panes are shown as what is drawn in them.
pub mod Newest
mod Tests
use site_sim.Base.{
  ℕ, zero, suc, ◌+◌, ◌-◌, List, [], ◌∷◌, ◌++◌, Bool, true, false, not, ◌&&◌, ◌||◌, length, drop,
  map, ltb, ◌==◌, if◌then◌else◌,
}
use site_sim.Tx.Control.{LogEntry, Channel, get_log, act, sys}

-- `kMaxRxEntries`
abbrev pub max_rx_entries : ℕ
max_rx_entries = 500

-- The members of `LogPanel`.
pub record LogPanel : Type 0 where
  pub rx_log : List (List ℕ)
  pub last_tx_count : ℕ
  pub last_rx_count : ℕ

-- `addRxEntry`
pub add_rx_entry : LogPanel → List ℕ → LogPanel
add_rx_entry p msg =
    let grown = p.rx_log ++ msg ∷ [] in
    record p { rx_log = if ltb max_rx_entries (length grown) then drop 1 grown else grown }

abbrev pub starts_with : List ℕ → List ℕ → Bool
starts_with [] text = true
starts_with (c ∷ word) [] = false
starts_with (c ∷ word) (d ∷ text) = (c == d) && starts_with word text

-- `msg.find(word) != npos`
abbrev pub contains : List ℕ → List ℕ → Bool
contains word [] = starts_with word []
contains word (c ∷ text) = starts_with word (c ∷ text) || contains word text

pub data Colour : Type 0 where
  green : Colour
  amber : Colour
  red : Colour
  orange : Colour
  blue : Colour
  plain : Colour

-- The colour of an entry of the transmit log, which has `ACT` or `SYS` in its text.
pub tx_colour : LogEntry → Colour
tx_colour act = amber
tx_colour (sys name) = blue

-- The colour of a line of the receive log. The words are REG, AFF, GRANT, EMRG, EMERGENCY, WARNING, ERR
-- and `RX started`.
pub rx_colour : List ℕ → Colour
rx_colour msg =
    if contains (82 ∷ 69 ∷ 71 ∷ []) msg || contains (65 ∷ 70 ∷ 70 ∷ []) msg
    then green
    else if contains (71 ∷ 82 ∷ 65 ∷ 78 ∷ 84 ∷ []) msg
    then amber
    else if contains (69 ∷ 77 ∷ 82 ∷ 71 ∷ []) msg
        || contains (69 ∷ 77 ∷ 69 ∷ 82 ∷ 71 ∷ 69 ∷ 78 ∷ 67 ∷ 89 ∷ []) msg
    then red
    else if contains (87 ∷ 65 ∷ 82 ∷ 78 ∷ 73 ∷ 78 ∷ 71 ∷ []) msg || contains (69 ∷ 82 ∷ 82 ∷ []) msg
    then orange
    else if contains (82 ∷ 88 ∷ 32 ∷ 115 ∷ 116 ∷ 97 ∷ 114 ∷ 116 ∷ 101 ∷ 100 ∷ []) msg
    then green
    else plain

-- What a frame draws: the lines of the panes with their colours, and whether each pane scrolls.
pub record Drawn : Type 0 where
  pub tx_lines : List (LogEntry × Colour)
  pub tx_scrolls : Bool
  pub rx_lines : List (List ℕ × Colour)
  pub rx_scrolls : Bool

-- `render`. With no line, the receive pane has a note instead.
pub render : Channel → LogPanel → Drawn × LogPanel
render cc p =
    let entries = get_log cc 200 in
    (
      record {
        tx_lines = map (λ e. (e, tx_colour e)) entries;
        tx_scrolls = not (length entries == p.last_tx_count);
        rx_lines = map (λ msg. (msg, rx_colour msg)) p.rx_log;
        rx_scrolls = not (length p.rx_log == p.last_rx_count);
      },
      record p { last_tx_count = length entries; last_rx_count = length p.rx_log },
    )
