-- ===== src/Rx/Lines/Tests.antt =====
-- Instances for the reader of src/rx/RxPipeline.cpp.
use site_sim.Base.{ℕ, ◌≡◌, List, [], ◌∷◌, All}
use site_sim.Rx.Lines.{read_lines}
use site_sim.Rx.Lines.Split.{segments, lines_from, concat, IsFull, read_lines-lines_from}

-- "ab", then "c\r" and a newline, then "d".
abbrev reads : List (List ℕ)
reads = (97 ∷ 98 ∷ []) ∷ (99 ∷ 13 ∷ 10 ∷ []) ∷ (100 ∷ []) ∷ []

reads-Full : All IsFull reads
reads-Full = (tt, (tt, (tt, tt)))

read_lines_example :
    read_lines [] reads ≡ lines_from (segments (concat reads)).0 (segments (concat reads)).1
read_lines_example = read_lines-lines_from reads reads-Full
