-- ===== src/Rx/Lines/Split.antt =====
-- The lines of the reader of src/rx/RxPipeline.cpp do not depend on how the reads cut the text.
use site_sim.Base.{
  ℕ, ◌≡◌, inl, inr, refl, sym, ap, ap₂, ◌∙◌, List, [], ◌∷◌, ◌++◌, All, Bool-cases, ◌==◌,
  if◌then◌else◌,
}
use mathlib.Core.List.{append-nil, append_assoc}
use site_sim.Rx.Lines.{
  newline, carriage_return, reversed, log_line, strip_returns, read_chunk, read_lines,
}

abbrev kept : ℕ → List ℕ → List ℕ
kept c [] = if c == carriage_return then [] else c ∷ []
kept c (d ∷ rest) = c ∷ d ∷ rest

-- The text without its carriage returns at the end.
abbrev pub without_returns : List ℕ → List ℕ
without_returns [] = []
without_returns (c ∷ text) = kept c (without_returns text)

-- The segments of a text between newlines, the last of them after the last newline.
abbrev pub segments : List ℕ → List ℕ × List (List ℕ)
segments [] = ([], [])
segments (c ∷ text) =
    let (first, rest) = segments text in
    if c == newline then ([], first ∷ rest) else (c ∷ first, rest)

abbrev pub shown : List ℕ → List (List ℕ)
shown [] = []
shown (c ∷ segment) = (c ∷ segment) ∷ []

-- The lines of a text: every segment that a newline ends without its carriage returns, and the
-- last segment as it is; empty ones are left out.
abbrev pub lines_from : List ℕ → List (List ℕ) → List (List ℕ)
lines_from segment [] = shown segment
lines_from segment (next ∷ rest) = shown (without_returns segment) ++ lines_from next rest

read_chunk-append :
    (xs ys line : List ℕ)
    → let (out, line') = read_chunk line xs in
      let (more, line'') = read_chunk line' ys in
      (read_chunk line (xs ++ ys)).0 ≡ out ++ more × ((read_chunk line (xs ++ ys)).1 ≡ line'')
unfolding read_chunk
read_chunk-append [] ys line = (refl, refl)
read_chunk-append (c ∷ xs) ys line =
    let ended = read_chunk-append xs ys [] in
    let more = read_chunk-append xs ys (c ∷ line) in
    elim (Bool-cases (c == newline)) [
      | inl e ↦ rw e (
        ap (◌++◌ (log_line (strip_returns line))) ended.0
            ∙ sym (
                append_assoc (log_line (strip_returns line)) (read_chunk [] xs).0
                  (read_chunk (read_chunk [] xs).1 ys).0),
        ended.1,
      )
      | inr e ↦ rw e more
    ]

reversed-append : (line acc : List ℕ) → reversed line acc ≡ reversed line [] ++ acc
reversed-append [] acc = refl
reversed-append (c ∷ line) acc =
    reversed-append line (c ∷ acc)
    ∙ sym (append_assoc (reversed line []) (c ∷ []) acc)
    ∙ ap (λ t. t ++ acc) (sym (reversed-append line (c ∷ [])))

reversed-back : (c : ℕ) (line : List ℕ) → reversed (c ∷ line) [] ≡ reversed line [] ++ c ∷ []
reversed-back c line = reversed-append line (c ∷ [])

shown-back : (c : ℕ) (xs : List ℕ) → shown (xs ++ c ∷ []) ≡ (xs ++ c ∷ []) ∷ []
shown-back c [] = refl
shown-back c (x ∷ xs) = refl

log_line-shown : (line : List ℕ) → log_line line ≡ shown (reversed line [])
log_line-shown [] = refl
log_line-shown (c ∷ line) =
    let back = reversed-back c line in
    ap (λ t. t ∷ []) back ∙ sym (shown-back c (reversed line [])) ∙ ap shown (sym back)

kept-back : (x c : ℕ) (xs : List ℕ) → kept x (xs ++ c ∷ []) ≡ x ∷ (xs ++ c ∷ [])
kept-back x c [] = refl
kept-back x c (y ∷ xs) = refl

without_returns-back :
    (xs : List ℕ) (c : ℕ)
    → without_returns (xs ++ c ∷ [])
      ≡ (if c == carriage_return then without_returns xs else xs ++ c ∷ [])
without_returns-back [] c = refl
without_returns-back (x ∷ xs) c = elim (Bool-cases (c == carriage_return)) [
  | inl e ↦
      let later =
        without_returns-back xs c ∙ ap (λ b. if b then without_returns xs else xs ++ c ∷ []) e in
      rw e (ap (kept x) later)
  | inr e ↦
      let later =
        without_returns-back xs c ∙ ap (λ b. if b then without_returns xs else xs ++ c ∷ []) e in
      rw e (ap (kept x) later ∙ kept-back x c xs)
]

strip_returns_lem :
    (line : List ℕ) → reversed (strip_returns line) [] ≡ without_returns (reversed line [])
unfolding strip_returns
strip_returns_lem [] = refl
strip_returns_lem (c ∷ line) =
    let back =
      ap without_returns (reversed-back c line) ∙ without_returns-back (reversed line []) c in
    elim (Bool-cases (c == carriage_return)) [
      | inl e ↦
          let back' =
            back
            ∙ ap (λ b. if b then without_returns (reversed line []) else reversed line [] ++ c ∷ [])
                e in
          rw e (strip_returns_lem line ∙ sym back')
      | inr e ↦
          let back' =
            back
            ∙ ap (λ b. if b then without_returns (reversed line []) else reversed line [] ++ c ∷ [])
                e in
          rw e (reversed-back c line ∙ sym back')
    ]

read_chunk_lem :
    (text line : List ℕ)
    → (read_chunk line text).0 ++ log_line (read_chunk line text).1
      ≡ lines_from (reversed line [] ++ (segments text).0) (segments text).1
unfolding read_chunk
read_chunk_lem [] line = log_line-shown line ∙ ap shown (sym (append-nil (reversed line [])))
read_chunk_lem (c ∷ text) line = elim (Bool-cases (c == newline)) [
  | inl e ↦
      let first =
        log_line-shown (strip_returns line)
        ∙ ap shown
            (strip_returns_lem line ∙ ap without_returns (sym (append-nil (reversed line [])))) in
      rw e (
        append_assoc (log_line (strip_returns line)) (read_chunk [] text).0
          (log_line (read_chunk [] text).1)
        ∙ ap₂ ◌++◌ first (read_chunk_lem text []))
  | inr e ↦
      let moved =
        ap (λ t. t ++ (segments text).0) (reversed-back c line)
        ∙ append_assoc (reversed line []) (c ∷ []) (segments text).0 in
      rw e (read_chunk_lem text (c ∷ line) ∙ ap (λ t. lines_from t (segments text).1) moved)
]

abbrev pub concat : List (List ℕ) → List ℕ
concat [] = []
concat (chunk ∷ chunks) = chunk ++ concat chunks

abbrev pub IsFull : List ℕ → Type 0
IsFull [] = ⊥
IsFull (c ∷ chunk) = Unit

read_chunk_nil :
    (line : List ℕ) → log_line line ≡ (read_chunk line []).0 ++ log_line (read_chunk line []).1
unfolding read_chunk
read_chunk_nil line = refl

read_lines-concat :
    (chunks : List (List ℕ)) (line : List ℕ)
    → All IsFull chunks
    → read_lines line chunks
      ≡ (read_chunk line (concat chunks)).0 ++ log_line (read_chunk line (concat chunks)).1
unfolding read_lines
read_lines-concat [] line h = read_chunk_nil line
read_lines-concat ([] ∷ chunks) line h = absurd h.0
read_lines-concat ((c ∷ chunk) ∷ chunks) line h =
    let (logged, line') = read_chunk line (c ∷ chunk) in
    let (more, line'') = read_chunk line' (concat chunks) in
    let (out, ends) = read_chunk-append (c ∷ chunk) (concat chunks) line in
    ap (◌++◌ logged) (read_lines-concat chunks line' h.1)
    ∙ sym (append_assoc logged more (log_line line''))
    ∙ ap₂ (λ o l. o ++ log_line l) (sym out) (sym ends)

-- However non-empty reads cut the text, the lines that are logged are those of the whole text.
pub read_lines-lines_from :
    (chunks : List (List ℕ))
    → All IsFull chunks
    → read_lines [] chunks ≡ lines_from (segments (concat chunks)).0 (segments (concat chunks)).1
read_lines-lines_from chunks h = read_lines-concat chunks [] h ∙ read_chunk_lem (concat chunks) []
