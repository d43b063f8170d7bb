-- ===== src/Ui/Log/Newest.antt =====
-- What the log of src/ui/LogPanel.cpp keeps, and when its pane scrolls.
use site_sim.Base.{
  ℕ, zero, suc, ◌+◌, ◌-◌, ◌≤◌, ◌<◌, ◌≡◌, refl, sym, ap, ap₂, ◌∙◌, inl, inr, List, [], ◌∷◌, ◌++◌,
  Bool-cases, not, true, false, length, length-append, length-drop, drop, drop_all, ltb, ltb→lt,
  lt→ltb, ltb-false→le, ◌==◌, arith,
}
use mathlib.Core.List.{append-nil, append_assoc}
use site_sim.Tx.Control.{Channel}
use site_sim.Ui.Log.{LogPanel, max_rx_entries, add_rx_entry, render}

-- The panel after lines that come in one after the other.
abbrev pub add_all : LogPanel → List (List ℕ) → LogPanel
add_all p [] = p
add_all p (msg ∷ msgs) = add_all (add_rx_entry p msg) msgs

-- The last 500 lines.
abbrev pub newest : List (List ℕ) → List (List ℕ)
newest msgs = drop (length msgs - max_rx_entries) msgs

drop_more : (n m : ℕ) (xs : List (List ℕ)) → drop n (drop m xs) ≡ drop (n + m) xs
drop_more n zero xs = ap (λ k. drop k xs) (omega arith)
drop_more n (suc m) [] = drop_all n [] (omega arith) ∙ sym (drop_all (n + suc m) [] (omega arith))
drop_more n (suc m) (x ∷ xs) =
    let e : n + suc m ≡ suc (n + m) = omega arith in
    drop_more n m xs ∙ ap (λ k. drop k (x ∷ xs)) (sym e)

drop-append_short :
    (n : ℕ) (xs ys : List (List ℕ)) → n ≤ length xs → drop n (xs ++ ys) ≡ drop n xs ++ ys
drop-append_short zero xs ys h = refl
drop-append_short (suc n) [] ys h = absurd (omega (arith, h))
drop-append_short (suc n) (x ∷ xs) ys h = drop-append_short n xs ys (omega (arith, h))

newest-drop :
    (xs ys : List (List ℕ)) → 500 < length xs → newest (drop 1 xs ++ ys) ≡ newest (xs ++ ys)
newest-drop [] ys h = absurd (omega (arith, h))
newest-drop (x ∷ xs) ys h =
    let e : length (x ∷ (xs ++ ys)) - 500 ≡ suc (length (xs ++ ys) - 500) =
      omega (arith, h, length-append xs ys) in
    ap (λ k. drop k (x ∷ (xs ++ ys))) (sym e)

newest_short : (xs : List (List ℕ)) → length xs ≤ 500 → newest xs ≡ xs
newest_short xs h = let e : length xs - 500 ≡ 0 = omega (arith, h) in ap (λ k. drop k xs) e

added :
    (p : LogPanel) (msg : List ℕ) (msgs : List (List ℕ))
    → length p.rx_log ≤ 500
    → (length (add_rx_entry p msg).rx_log ≤ 500)
      × (newest ((add_rx_entry p msg).rx_log ++ msgs) ≡ newest ((p.rx_log ++ msg ∷ []) ++ msgs))
unfolding add_rx_entry
added p msg msgs h =
    let grown = p.rx_log ++ msg ∷ [] in
    let size = length-append p.rx_log (msg ∷ []) in
    elim (Bool-cases (ltb max_rx_entries (length grown))) [
      | inl e ↦ rw e (
        omega (arith, size, h, length-drop 1 grown),
        newest-drop grown msgs (ltb→lt max_rx_entries (length grown) e),
      )
      | inr e ↦ rw e (ltb-false→le max_rx_entries (length grown) e, refl)
    ]

-- From a log of at most 500 lines, the panel keeps the last 500 of all lines, or all if they are
-- fewer, in their order.
pub add_all-newest :
    (msgs : List (List ℕ)) (p : LogPanel)
    → length p.rx_log ≤ 500
    → (add_all p msgs).rx_log ≡ newest (p.rx_log ++ msgs)
add_all-newest [] p h = sym (ap newest (append-nil p.rx_log) ∙ newest_short p.rx_log h)
add_all-newest (msg ∷ msgs) p h =
    let (fits, same) = added p msg msgs h in
    add_all-newest msgs (add_rx_entry p msg) fits
    ∙ same
    ∙ ap newest (append_assoc p.rx_log (msg ∷ []) msgs)

-- Once the log has 500 lines, a frame after one more line does not scroll the pane to it.
pub render_full :
    (cc : Channel) (p : LogPanel) (msg : List ℕ)
    → length p.rx_log ≡ 500
    → (render cc (add_rx_entry (render cc p).1 msg)).0.rx_scrolls ≡ false
unfolding render add_rx_entry
render_full cc p msg h =
    let grown = p.rx_log ++ msg ∷ [] in
    let size = length-append p.rx_log (msg ∷ []) in
    let over : ltb max_rx_entries (length grown) ≡ true =
      lt→ltb max_rx_entries (length grown) (omega (arith, size, h)) in
    let full : length (drop 1 grown) ≡ 500 = omega (arith, size, h, length-drop 1 grown) in
    rw over (ap₂ (λ a b. not (a == b)) full h)
