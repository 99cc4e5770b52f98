-- ===== src/Watch/Table.antt =====
-- `Rows` of wan_watch.py: the tables of an HTML page, from the parser's events.
pub mod Reads
use aura_server.Base.{
  ℕ, String, Bool, true, false, not, ◌&&◌, ◌||◌, Option, none, some, List, [], ◌∷◌, ◌++◌, ◌==◌,
  nat_eq, string_eq, leb, ltb, if◌then◌else◌, Error, Result, ok, err, ◌>>=◌, attribute_error,
}

-- The calls that `HTMLParser.feed` makes. Tags are in lower case by then.
pub data Event : Type 0 where
  start stop : String → Event
  chars : List ℕ → Event

-- The attributes of `Rows`. A cell is the list of its pieces of text.
pub record Rows : Type 0 where
  pub rows : List (List (List ℕ))
  pub row : Option (List (List ℕ))
  pub cell : Option (List (List ℕ))

abbrev pub initial : Rows
initial = record { rows = []; row = none; cell = none }

-- What `str.split()` splits at.
abbrev pub is_space : ℕ → Bool
is_space c =
    (leb 9 c && leb c 13)
    || (leb 28 c && leb c 32)
    || c == 0x85
    || c == 0xa0
    || c == 0x1680
    || (leb 0x2000 c && leb c 0x200a)
    || c == 0x2028
    || c == 0x2029
    || c == 0x202f
    || c == 0x205f
    || c == 0x3000

abbrev pub is_cell : String → Bool
is_cell tag = tag == "td" || tag == "th"

abbrev pub concat : List (List ℕ) → List ℕ
concat [] = []
concat (piece ∷ pieces) = piece ++ concat pieces

-- A word was begun before; the character before was a space.
unfoldable pub squeeze : Bool → Bool → List ℕ → List ℕ
squeeze seen gap [] = []
squeeze seen gap (c ∷ cs) =
    let rest = squeeze (seen || not (is_space c)) (is_space c) cs in
    if is_space c then rest else if seen && gap then 32 ∷ c ∷ rest else c ∷ rest

-- `" ".join(s.split())`
abbrev pub words : List ℕ → List ℕ
words = squeeze false false

abbrev pub is_none : {A : Type 0} → Option A → Bool
is_none none = true
is_none (some _) = false

unfoldable pub handle_starttag : String → Rows → Rows
handle_starttag tag s =
    if tag == "tr"
    then record s { row = some [] }
    else if is_cell tag && not (is_none s.row)
    then record s { cell = some [] }
    else s

abbrev pub add_text : List ℕ → Rows → Option (List (List ℕ)) → Rows
add_text piece s none = s
add_text piece s (some pieces) = record s { cell = some (pieces ++ (piece ∷ [])) }

unfoldable pub handle_data : List ℕ → Rows → Rows
handle_data piece s = add_text piece s s.cell

-- `self.row.append(…)`
abbrev pub add_cell : List (List ℕ) → Rows → Option (List (List ℕ)) → Result Rows
add_cell pieces s none = err attribute_error
add_cell pieces s (some cells) =
    ok (record s { row = some (cells ++ (words (concat pieces) ∷ [])); cell = none })

abbrev pub add_row : Rows → Option (List (List ℕ)) → Rows
add_row s none = s
add_row s (some cells) = record { rows = s.rows ++ (cells ∷ []); row = none; cell = none }

abbrev pub end_cell : Rows → Option (List (List ℕ)) → Result Rows → Result Rows
end_cell s none otherwise = otherwise
end_cell s (some pieces) otherwise = add_cell pieces s s.row

abbrev pub end_row : String → Rows → Result Rows
end_row tag s = if tag == "tr" then ok (add_row s s.row) else ok s

unfoldable pub handle_endtag : String → Rows → Result Rows
handle_endtag tag s = if is_cell tag then end_cell s s.cell (end_row tag s) else end_row tag s

unfoldable pub handle : Event → Rows → Result Rows
handle (start tag) s = ok (handle_starttag tag s)
handle (stop tag) s = handle_endtag tag s
handle (chars piece) s = ok (handle_data piece s)

-- `parser.feed`
unfoldable pub feed : List Event → Rows → Result Rows
feed [] s = ok s
feed (event ∷ events) s = handle event s >>= feed events
