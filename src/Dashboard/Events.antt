-- ===== src/Dashboard/Events.antt =====
-- The text of an event, as a client of the stream reads it.
use go_blockchain.Prelude.{
  ◌≡◌, bytes_equal, Bool, true, false, List, [], ◌∷◌, ◌++◌, Option, none, some, if◌then◌else◌, ◌==◌,
  Bytes, codes, All,
}
use go_blockchain.Dashboard.{onto_first}

-- A reader of one event by the W3C rules for event streams, except for a byte order mark. A line ends
-- with a line feed, a carriage return or both; `after_return` is whether a carriage return came last.
unfoldable pub stream_lines : Bool → Bytes → List Bytes
stream_lines after_return [] = [] ∷ []
stream_lines after_return (c ∷ s) =
    let rest = stream_lines false s in
    let rest_after_return = stream_lines true s in
    if c == 10
    then (if after_return then rest else [] ∷ rest)
    else if c == 13
    then [] ∷ rest_after_return
    else onto_first c rest

-- A field is named before the first colon, and has its value behind it, without one space.
unfoldable pub field_name : Bytes → Bytes
field_name [] = []
field_name (c ∷ s) = let rest = field_name s in if c == 58 then [] else c ∷ rest

abbrev pub without_space : Bytes → Bytes
without_space [] = []
without_space (c ∷ s) = if c == 32 then s else c ∷ s

unfoldable pub field_value : Bytes → Bytes
field_value [] = []
field_value (c ∷ s) = let rest = field_value s in if c == 58 then without_space s else rest

abbrev pub event_type : Bytes → Bytes
event_type [] = codes "message"
event_type (c ∷ name) = c ∷ name

unfoldable pub join_lines : List Bytes → Bytes
join_lines [] = []
join_lines (line ∷ []) = line
join_lines (line ∷ next ∷ lines) = line ++ 10 ∷ join_lines (next ∷ lines)

-- An empty line ends the event, if it has data.
unfoldable pub read_fields : Bytes → List Bytes → List Bytes → Option (Bytes × Bytes)
read_fields name lines [] = none
read_fields name [] ([] ∷ rest) = read_fields [] [] rest
read_fields name (text ∷ lines) ([] ∷ rest) = some (event_type name, join_lines (text ∷ lines))
read_fields name lines ((c ∷ line) ∷ rest) =
    let value = field_value (c ∷ line) in
    let named = read_fields value lines rest in
    let added = read_fields name (lines ++ value ∷ []) rest in
    let passed_over = read_fields name lines rest in
    if bytes_equal (field_name (c ∷ line)) (codes "event")
    then named
    else if bytes_equal (field_name (c ∷ line)) (codes "data")
    then added
    else passed_over

unfoldable pub read_event : Bytes → Option (Bytes × Bytes)
read_event stream = read_fields [] [] (stream_lines false stream)

-- A text without a carriage return, and one without any line end.
abbrev pub HasNoReturn : Bytes → Type 0
HasNoReturn = All λ c. (c == 13) ≡ false

abbrev pub IsLine : Bytes → Type 0
IsLine = All λ c. ((c == 10) ≡ false) × ((c == 13) ≡ false)
