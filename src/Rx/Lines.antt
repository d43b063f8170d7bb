-- ===== src/Rx/Lines.antt =====
-- The lines that src/rx/RxPipeline.cpp logs: `stderrReaderThread`, with the reads of the pipe as a
-- list of chunks, and `onWriteEvent`. Characters are their codes. `line` is held with its last
-- character in front, which is the one that `back` and `pop_back` are about.
pub mod Split
mod Tests
use site_sim.Base.{ℕ, List, [], ◌∷◌, ◌++◌, Bool, ◌==◌, ◌||◌, if◌then◌else◌}

abbrev pub newline : ℕ
newline = 10

abbrev pub carriage_return : ℕ
carriage_return = 13

abbrev pub reversed : List ℕ → List ℕ → List ℕ
reversed [] out = out
reversed (c ∷ line) out = reversed line (c ∷ out)

-- `if (!line.empty()) m_log(line)`
abbrev pub log_line : List ℕ → List (List ℕ)
log_line [] = []
log_line (c ∷ line) = reversed (c ∷ line) [] ∷ []

-- The loop that pops `\r`.
pub strip_returns : List ℕ → List ℕ
strip_returns [] = []
strip_returns (c ∷ line) =
    let rest = strip_returns line in if c == carriage_return then rest else c ∷ line

-- The loop over the characters of a read: what it logs, and the line that it leaves.
pub read_chunk : List ℕ → List ℕ → List (List ℕ) × List ℕ
read_chunk line [] = ([], line)
read_chunk line (c ∷ chunk) =
    let (ended, line') = read_chunk [] chunk in
    let (more, line'') = read_chunk (c ∷ line) chunk in
    if c == newline then (log_line (strip_returns line) ++ ended, line') else (more, line'')

-- The rest of `stderrReaderThread`. An empty read is the end or an error. The tests whether `m_log` is set are
-- left out, as all of its users set a callback before `start`.
pub read_lines : List ℕ → List (List ℕ) → List (List ℕ)
read_lines line [] = log_line line
read_lines line ([] ∷ chunks) = log_line line
read_lines line ((c ∷ chunk) ∷ chunks) =
    let (logged, line') = read_chunk line (c ∷ chunk) in logged ++ read_lines line' chunks

-- The loop of `onWriteEvent`, on a message with its last character in front.
pub strip_ends : List ℕ → List ℕ
strip_ends [] = []
strip_ends (c ∷ msg) =
    let rest = strip_ends msg in if (c == newline) || (c == carriage_return) then rest else c ∷ msg

-- `onWriteEvent` with a pipeline and a message.
pub on_write_event : ℕ → List ℕ → List (List ℕ)
on_write_event swrite event_string =
    if swrite == 0 then [] else log_line (strip_ends (reversed event_string []))
