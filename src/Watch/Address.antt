-- ===== src/Watch/Address.antt =====
-- `observed_ipv4` of wan_watch.py.
use aura_server.Base.{
  ℕ, ◌≤◌, ◌≡◌, refl, ◌∙◌, ap, false, not, List, [], ◌∷◌, ◌++◌, ◌==◌, nat_eq, list_eq,
  list_equals_iff, string_eq, map, length, ltb, All, codes, if◌then◌else◌, Result, ok, err, ◌>>=◌,
  ◌>>◌, raise_if, value_error, arith,
}
use mathlib.Core.Path.{sym}
use mathlib.Core.List.{append_assoc}
use aura_server.Address.{Parser, ip_address, public_ip}
use aura_server.Watch.Table.{Event, initial, feed}
use aura_server.Watch.Table.Reads.{table_events, cell_text, feed-rows}

abbrev pub label : List ℕ
label = codes "Broadband IPv4 Address"

-- The value of a row of two cells with the label.
unfoldable pub value_of : List (List ℕ) → List (List ℕ)
value_of (name ∷ value ∷ []) = if name == label then value ∷ [] else []
value_of _ = []

unfoldable pub values : List (List (List ℕ)) → List (List ℕ)
values [] = []
values (row ∷ rows) = value_of row ++ values rows

abbrev pub only : List (List ℕ) → Result (List ℕ)
only (value ∷ []) = ok value
only _ = err (value_error "Unrecognized or ambiguous router status")

unfoldable pub check_version : Parser → List ℕ → Result (List ℕ)
check_version parse address = do
  parsed ← ip_address parse address
  raise_if (not (parsed.version == 4)) (value_error "Expected WAN IPv4")
  ok address

-- `page` decodes the bytes as UTF-8, which may raise `ValueError`, and gives the parser's events.
unfoldable pub observed_ipv4 : Parser → (List ℕ → Result (List Event)) → List ℕ → Result (List ℕ)
observed_ipv4 parse page bytes = do
  raise_if (ltb 131072 (length bytes)) (value_error "Router status exceeds budget")
  events ← page bytes
  parser ← feed events initial
  value ← only (values parser.rows)
  address ← public_ip parse value
  check_version parse address

-- A row that does not count.
abbrev pub IsOther : List (List (List ℕ)) → Type 0
IsOther row = value_of (map cell_text row) ≡ []

values-append : (xs ys : List (List (List ℕ))) → values (xs ++ ys) ≡ values xs ++ values ys
unfolding values
values-append [] ys = refl
values-append (x ∷ xs) ys =
    rw (values-append xs ys) (sym (append_assoc (value_of x) (values xs) (values ys)))

values_of_others :
    (rows : List (List (List (List ℕ)))) → All IsOther rows → values (map (map cell_text) rows) ≡ []
unfolding values
values_of_others [] h = refl
values_of_others (row ∷ rows) (h, hs) = rw (h, values_of_others rows hs) refl

map-append :
    (xs ys : List (List (List (List ℕ))))
    → map (map cell_text) (xs ++ ys) ≡ map (map cell_text) xs ++ map (map cell_text) ys
map-append [] ys = refl
map-append (x ∷ xs) ys = ap (λ l. map cell_text x ∷ l) (map-append xs ys)

value_of_named : (name value : List ℕ) → name ≡ label → value_of (name ∷ value ∷ []) ≡ value ∷ []
unfolding value_of
value_of_named name value e = let same = (list_equals_iff name label).1 e in rw same refl

values_found :
    (before after : List (List (List (List ℕ)))) (name value : List (List ℕ))
    → All IsOther before
    → All IsOther after
    → cell_text name ≡ label
    → values (map (map cell_text) (before ++ ((name ∷ value ∷ []) ∷ after))) ≡ cell_text value ∷ []
unfolding values
values_found before after name value others others' named =
    let found = value_of_named (cell_text name) (cell_text value) named in
    ap values (map-append before ((name ∷ value ∷ []) ∷ after))
    ∙ values-append (map (map cell_text) before) (map (map cell_text) ((name ∷ value ∷ []) ∷ after))
    ∙ rw (values_of_others before others, values_of_others after others', found) refl

-- On a status page of at most 131072 bytes whose events are those of a table in which exactly one
-- row has two cells and the label, `observed_ipv4` is the test of a public IPv4 address applied to
-- that row's value, its white space squeezed.
pub observed_ipv4_lem :
    (parse : Parser) (page : List ℕ → Result (List Event)) (bytes : List ℕ)
    (before after : List (List (List (List ℕ)))) (name value : List (List ℕ))
    → length bytes ≤ 131072
    → page bytes ≡ ok (table_events (before ++ ((name ∷ value ∷ []) ∷ after)))
    → All IsOther before
    → All IsOther after
    → cell_text name ≡ label
    → observed_ipv4 parse page bytes ≡ (public_ip parse (cell_text value) >>= check_version parse)
unfolding observed_ipv4
observed_ipv4_lem parse page bytes before after name value small given others others' named =
    let within : ltb 131072 (length bytes) ≡ false = ground (arith, small) in
    let found = values_found before after name value others others' named in
    rw (within, given, feed-rows (before ++ ((name ∷ value ∷ []) ∷ after)) [], found) refl
