-- ===== src/Logging.antt =====
-- internal/logging/handler.go: one line of text for each log record; and the `ReplaceAttr` that
-- main.go gives it.
pub mod Lines
mod Tests
use gospidertrap.Common.{
  ℕ, Bool, true, false, not, ◌||◌, Option, none, some, List, [], ◌∷◌, ◌++◌, Text, codes, text_eq,
  if◌then◌else◌, ◌==◌,
}
use gospidertrap.Common.Int.{ℤ, pos, negsuc, lt_int}
use gospidertrap.Strings.{contains}

-- The value of an attribute: a string, a `slog.Level`, or another value, by what `%v` prints.
pub data Value : Type 0 where
  text : Text → Value
  level : ℤ → Value
  other : Text → Value

pub record Attr : Type 0 where
  pub key : Text
  pub value : Value

-- The fields of a `slog.Record`; `time` is what `%v` prints of it.
pub record LogRecord : Type 0 where
  pub time : Text
  pub severity : ℤ
  pub message : Text
  pub attrs : List Attr

-- `slog.HandlerOptions`; `none` is nil.
pub record HandlerOptions : Type 0 where
  pub minimum : Option ℤ
  pub replace_attr : Option (Attr → Attr)

abbrev pub empty_options : HandlerOptions
empty_options = record { minimum = none; replace_attr = none }

unfoldable pub new_handler : Option HandlerOptions → HandlerOptions
new_handler none = empty_options
new_handler (some opts) = opts

-- `none` is the panic of a method call on a nil `Leveler`.
unfoldable pub enabled : HandlerOptions → ℤ → Option Bool
enabled h severity = elim h.minimum [
  | none ↦ none
  | some least ↦ some (not (lt_int severity least))
]

-- Both return the handler itself.
unfoldable pub with_attrs : HandlerOptions → List Attr → HandlerOptions
with_attrs h attrs = h

unfoldable pub with_group : HandlerOptions → Text → HandlerOptions
with_group h name = h

abbrev pub replaced : Option (Attr → Attr) → Attr → Attr
replaced none a = a
replaced (some f) a = f a

-- The attributes that `ReplaceAttr` leaves, those with an empty key dropped.
unfoldable pub filter_attrs : Option (Attr → Attr) → List Attr → List Attr
filter_attrs replace [] = []
filter_attrs replace (a ∷ attrs) =
    let rest = filter_attrs replace attrs in
    if text_eq (replaced replace a).key [] then rest else replaced replace a ∷ rest

abbrev or_later : Option Value → Option Value → Option Value
or_later earlier none = earlier
or_later earlier (some v) = some v

-- The value of the last attribute named `msg`, and the attributes with other names.
unfoldable pub extract_msg : List Attr → Option Value × List Attr
extract_msg [] = (none, [])
extract_msg (a ∷ attrs) =
    let (msg, others) = extract_msg attrs in
    if text_eq a.key (codes "msg") then (or_later (some a.value) msg, others) else (msg, a ∷ others)

-- `level_string` is `slog.Level.String`.
module _ (level_string : ℤ → Text) where
  unfoldable pub print_msg : Value → Text
  print_msg (text s) = s
  print_msg (level n) = level_string n
  print_msg (other s) = s

  -- Strings with a space or an equals sign stand in quotes.
  unfoldable pub print_value : Value → Text
  print_value (text s) =
      if contains s (codes " ") || contains s (codes "=") then b'"' ∷ (s ++ codes "\"") else s
  print_value (level n) = level_string n
  print_value (other s) = s

  unfoldable pub print_attr : Attr → Text
  print_attr a = a.key ++ codes "=" ++ print_value a.value

  unfoldable pub print_attrs : List Attr → Text
  print_attrs [] = []
  print_attrs (a ∷ []) = print_attr a
  print_attrs (a ∷ b ∷ attrs) = print_attr a ++ codes ", " ++ print_attrs (b ∷ attrs)

  unfoldable pub build_line : Option Value → List Attr → Text
  build_line none others = print_attrs others ++ codes "\n"
  build_line (some msg) [] = print_msg msg ++ codes "\n"
  build_line (some msg) (a ∷ others) =
      print_msg msg ++ codes " (" ++ print_attrs (a ∷ others) ++ codes ")" ++ codes "\n"

  -- What `Handle` writes.
  unfoldable pub handle : HandlerOptions → LogRecord → Text
  handle h r =
      let attrs =
        record { key = codes "time"; value = other r.time }
        ∷ record { key = codes "level"; value = level r.severity }
        ∷ record { key = codes "msg"; value = text r.message }
        ∷ r.attrs in
      let (msg, others) = extract_msg (filter_attrs h.replace_attr attrs) in build_line msg others

  -- The marks of main.go for the four levels.
  unfoldable pub level_mark : ℤ → Text
  level_mark (negsuc n) = if n == 3 then codes "[%]" else level_string (negsuc n)
  level_mark (pos n) =
      if n == 0
      then codes "[*]"
      else if n == 4
      then codes "[?]"
      else if n == 8
      then codes "[!]"
      else level_string (pos n)

  abbrev mark_value : Attr → Value → Attr
  mark_value a (level n) = record { key = codes "level"; value = text (level_mark n) }
  mark_value a v = a

  -- `ReplaceAttr` of `newConfig`.
  unfoldable pub replace_level : Attr → Attr
  replace_level a =
      if text_eq a.key (codes "time")
      then record { key = []; value = other [] }
      else if text_eq a.key (codes "level")
      then mark_value a a.value
      else a
