-- ===== src/Watch/Table/Reads.antt =====
-- What `Rows` makes of a page.
use aura_server.Base.{
  ℕ, ◌≡◌, refl, ◌∙◌, inl, inr, String, not, ◌&&◌, Bool-cases, Option, none, some, List, [], ◌∷◌,
  ◌++◌, ◌==◌, string_eq, map, Result, ok, arith,
}
use mathlib.Core.List.{append_assoc, append-nil}
use aura_server.Watch.Table.{
  Event, start, stop, chars, Rows, is_cell, is_none, concat, words, handle_starttag, add_text,
  handle_data, add_row, end_row, end_cell, handle_endtag, handle, feed,
}

-- Where no row is open, no cell is.
abbrev pub IsOpen : Rows → Type 0
IsOpen s = (s.row ≡ none) → s.cell ≡ none

handle_starttag-IsOpen : (tag : String) (s : Rows) → IsOpen s → IsOpen (handle_starttag tag s)
unfolding handle_starttag
handle_starttag-IsOpen tag s h = elim (Bool-cases (tag == "tr")) [
  | inl e ↦ rw e (λ n. absurd (cc n))
  | inr e ↦ elim (Bool-cases (is_cell tag && not (is_none s.row))) [
    | inl f ↦ rw (e, f) (λ n. ground (arith, f, n))
    | inr f ↦ rw (e, f) h
  ]
]

handle_data-IsOpen :
    (piece : List ℕ) (s : Rows) (o : Option (List (List ℕ)))
    → s.cell ≡ o
    → IsOpen s
    → IsOpen (add_text piece s o)
handle_data-IsOpen piece s none e h = h
handle_data-IsOpen piece s (some pieces) e h = λ n. absurd (cc (e, h n))

-- Ending a tag never fails there.
add_row-IsOpen : (s : Rows) (o : Option (List (List ℕ))) → IsOpen s → IsOpen (add_row s o)
add_row-IsOpen s none h = h
add_row-IsOpen s (some cells) h = λ n. refl

handle_endtag_step :
    (s : Rows) (r : Option (List (List ℕ))) (c : Option (List (List ℕ))) (rest : Result Rows)
    → s.row ≡ r
    → s.cell ≡ c
    → IsOpen s
    → ((s' : Rows) × (rest ≡ ok s') × IsOpen s')
    → (s' : Rows) × (end_cell s c rest ≡ ok s') × IsOpen s'
handle_endtag_step s r none rest e f h k = k
handle_endtag_step s none (some pieces) rest e f h k = absurd (cc (f, h e))
handle_endtag_step s (some cells) (some pieces) rest e f h k = (
  record s { row = some (cells ++ (words (concat pieces) ∷ [])); cell = none },
  rw e refl,
  λ n. refl,
)

tr_step : (tag : String) (s : Rows) → IsOpen s → (s' : Rows) × (end_row tag s ≡ ok s') × IsOpen s'
tr_step tag s h = elim (Bool-cases (tag == "tr")) [
  | inl e ↦ (add_row s s.row, rw e refl, add_row-IsOpen s s.row h)
  | inr e ↦ (s, rw e refl, h)
]

handle_lem :
    (event : Event) (s : Rows) → IsOpen s → (s' : Rows) × (handle event s ≡ ok s') × IsOpen s'
unfolding handle handle_endtag handle_data
handle_lem (start tag) s h = (handle_starttag tag s, refl, handle_starttag-IsOpen tag s h)
handle_lem (chars piece) s h =
    (add_text piece s s.cell, refl, handle_data-IsOpen piece s s.cell refl h)
handle_lem (stop tag) s h = elim (Bool-cases (is_cell tag)) [
  | inl e ↦ rw e (handle_endtag_step s s.row s.cell (end_row tag s) refl refl h (tr_step tag s h))
  | inr e ↦ rw e (tr_step tag s h)
]

-- From a state in which no cell is open outside a row, `Rows` takes any sequence of events without
-- an exception, and the state that it ends in is such a state.
pub feed_total :
    (events : List Event) (s : Rows) → IsOpen s → (s' : Rows) × (feed events s ≡ ok s') × IsOpen s'
unfolding feed
feed_total [] s h = (s, refl, h)
feed_total (event ∷ events) s h =
    let (next, made, open_) = handle_lem event s h in
    let (last, fed, still) = feed_total events next open_ in (last, rw made fed, still)

-- The events of a table: a row is a list of cells, a cell a list of pieces of text.
abbrev cell_events : List (List ℕ) → List Event → List Event
cell_events pieces rest = start "td" ∷ (map chars pieces ++ (stop "td" ∷ rest))

abbrev cells_events : List (List (List ℕ)) → List Event → List Event
cells_events [] rest = rest
cells_events (pieces ∷ cells) rest = cell_events pieces (cells_events cells rest)

abbrev pub table_events : List (List (List (List ℕ))) → List Event
table_events [] = []
table_events (cells ∷ rows) = start "tr" ∷ cells_events cells (stop "tr" ∷ table_events rows)

abbrev pub cell_text : List (List ℕ) → List ℕ
cell_text pieces = words (concat pieces)

module _ (done : List (List (List ℕ))) where
  feed-pieces :
      (pieces seen : List (List ℕ)) (cells : List (List ℕ)) (rest : List Event)
      → feed (map chars pieces ++ rest) (record { rows = done; row = some cells; cell = some seen })
        ≡ feed rest (record { rows = done; row = some cells; cell = some (seen ++ pieces) })
  unfolding feed handle handle_data
  feed-pieces [] seen cells rest = rw (append-nil seen) refl
  feed-pieces (piece ∷ pieces) seen cells rest =
      feed-pieces pieces (seen ++ (piece ∷ [])) cells rest
      ∙ rw (append_assoc seen (piece ∷ []) pieces) refl

  feed-cells :
      (row : List (List (List ℕ))) (cells : List (List ℕ)) (rest : List Event)
      → feed (cells_events row rest) (record { rows = done; row = some cells; cell = none })
        ≡ feed rest (record { rows = done; row = some (cells ++ map cell_text row); cell = none })
  unfolding feed handle handle_starttag handle_endtag
  feed-cells [] cells rest = rw (append-nil cells) refl
  feed-cells (pieces ∷ row) cells rest =
      feed-pieces pieces [] cells (stop "td" ∷ cells_events row rest)
      ∙ feed-cells row (cells ++ (cell_text pieces ∷ [])) rest
      ∙ rw (append_assoc cells (cell_text pieces ∷ []) (map cell_text row)) refl

pub feed-rows :
    (rows : List (List (List (List ℕ)))) (done : List (List (List ℕ)))
    → feed (table_events rows) (record { rows = done; row = none; cell = none })
      ≡ ok (record { rows = done ++ map (map cell_text) rows; row = none; cell = none })
unfolding feed handle handle_starttag handle_endtag
feed-rows [] done = rw (append-nil done) refl
feed-rows (cells ∷ rows) done =
    feed-cells done cells [] (stop "tr" ∷ table_events rows)
    ∙ feed-rows rows (done ++ (map cell_text cells ∷ []))
    ∙ rw (append_assoc done (map cell_text cells ∷ []) (map (map cell_text) rows)) refl
