-- ===== src/Logging/Lines.antt =====
-- internal/logging/handler.go: the line that main.go's logger writes for a record.
use gospidertrap.Common.{
  ℕ, suc, ◌+◌, ◌≡◌, ◌⊎◌, inl, inr, refl, false, ◌||◌, Option, none, some, List, [], ◌∷◌, ◌++◌,
  arith, Text, codes, text_eq, if◌then◌else◌, ◌==◌, Bool-cases, All,
}
use gospidertrap.Common.Int.{ℤ, pos, negsuc}
use gospidertrap.Strings.{contains}
use gospidertrap.Logging.{
  Value, text, level, other, Attr, LogRecord, filter_attrs, extract_msg, print_msg, print_value,
  print_attr, print_attrs, build_line, handle, level_mark, replace_level,
}

-- How many lines a text ends.
unfoldable pub newlines : Text → ℕ
newlines [] = 0
newlines (c ∷ s) = (if c == 10 then 1 else 0) + newlines s

newlines-append : (s t : Text) → newlines (s ++ t) ≡ newlines s + newlines t
unfolding newlines
newlines-append [] t = omega arith
newlines-append (c ∷ s) t = omega (arith, newlines-append s t)

-- The name of an attribute that neither the handler nor main.go treats apart.
abbrev pub IsPlain : Attr → Type 0
IsPlain a =
    (text_eq a.key [] ≡ false)
    × (text_eq a.key (codes "time") ≡ false)
    × (text_eq a.key (codes "level") ≡ false)
    × (text_eq a.key (codes "msg") ≡ false)

-- One of the four levels that main.go marks.
abbrev pub IsMarked : ℤ → Type 0
IsMarked n = (n ≡ negsuc 3) ⊎ (n ≡ pos 0) ⊎ (n ≡ pos 4) ⊎ (n ≡ pos 8)

-- The newlines of the parts that a record brings with it.
abbrev pub value_newlines : (ℤ → Text) → Value → ℕ
value_newlines level_string (text s) = newlines s
value_newlines level_string (level n) = newlines (level_string n)
value_newlines level_string (other s) = newlines s

abbrev pub attr_newlines : (ℤ → Text) → List Attr → ℕ
attr_newlines level_string [] = 0
attr_newlines level_string (a ∷ attrs) =
    newlines a.key + value_newlines level_string a.value + attr_newlines level_string attrs

module _ (level_string : ℤ → Text) where
  replace_level_plain : (a : Attr) → IsPlain a → replace_level level_string a ≡ a
  unfolding replace_level
  replace_level_plain a (no_key, no_time, no_level, no_msg) =
      rw (no_time, no_level, replace_level) refl

  filter_attrs_plain :
      (attrs : List Attr)
      → All IsPlain attrs
      → filter_attrs (some (replace_level level_string)) attrs ≡ attrs
  unfolding filter_attrs
  filter_attrs_plain [] h = refl
  filter_attrs_plain (a ∷ attrs) (plain, h) =
      rw (replace_level_plain a plain, plain.0, filter_attrs_plain attrs h) refl

  extract_msg_plain : (attrs : List Attr) → All IsPlain attrs → extract_msg attrs ≡ (none, attrs)
  unfolding extract_msg
  extract_msg_plain [] h = refl
  extract_msg_plain (a ∷ attrs) (plain, h) = rw (extract_msg_plain attrs h, plain.3) refl

  marked : LogRecord → Attr
  marked r = record { key = codes "level"; value = text (level_mark level_string r.severity) }

  filtered :
      (r : LogRecord)
      → All IsPlain r.attrs
      → filter_attrs (some (replace_level level_string)) (
          record { key = codes "time"; value = other r.time }
          ∷ record { key = codes "level"; value = level r.severity }
          ∷ record { key = codes "msg"; value = text r.message }
          ∷ r.attrs)
        ≡ marked r ∷ record { key = codes "msg"; value = text r.message } ∷ r.attrs
  unfolding filter_attrs replace_level text_eq marked
  filtered r h = rw (filter_attrs_plain r.attrs h) refl

  extracted :
      (r : LogRecord)
      → All IsPlain r.attrs
      → extract_msg (marked r ∷ record { key = codes "msg"; value = text r.message } ∷ r.attrs)
        ≡ (some (text r.message), marked r ∷ r.attrs)
  unfolding extract_msg text_eq marked
  extracted r h = rw (extract_msg_plain r.attrs h) refl

  -- The line itself: the message, the mark of the level, and the attributes.
  handle_line :
      (minimum : Option ℤ) (r : LogRecord)
      → All IsPlain r.attrs
      → handle level_string
          (record { minimum = minimum; replace_attr = some (replace_level level_string) })
          r
        ≡ r.message
          ++ codes " ("
          ++ print_attrs level_string (
              record { key = codes "level"; value = text (level_mark level_string r.severity) }
              ∷ r.attrs)
          ++ codes ")"
          ++ codes "\n"
  unfolding handle build_line print_msg
  handle_line minimum r h = rw (filtered r h, extracted r h, handle) (unfold marked in refl)

  newlines-print_value :
      (v : Value) → newlines (print_value level_string v) ≡ value_newlines level_string v
  unfolding print_value
  newlines-print_value (text s) =
      elim (Bool-cases (contains s (codes " ") || contains s (codes "="))) [
        | inl e ↦ rw e (unfold newlines in omega (arith, newlines-append s (codes "\"")))
        | inr e ↦ rw e refl
      ]
  newlines-print_value (level n) = refl
  newlines-print_value (other s) = refl

  newlines-print_attr :
      (a : Attr) → newlines (print_attr level_string a) ≡ attr_newlines level_string (a ∷ [])
  unfolding print_attr
  newlines-print_attr a =
      unfold newlines in omega (arith, newlines-append, newlines-print_value a.value)

  newlines-print_attrs :
      (attrs : List Attr)
      → newlines (print_attrs level_string attrs) ≡ attr_newlines level_string attrs
  unfolding print_attrs newlines
  newlines-print_attrs [] = refl
  newlines-print_attrs (a ∷ []) = newlines-print_attr a
  newlines-print_attrs (a ∷ b ∷ attrs) =
      omega (arith, newlines-append, newlines-print_attr a, newlines-print_attrs (b ∷ attrs))

  newlines-level_mark : (n : ℤ) → IsMarked n → newlines (level_mark level_string n) ≡ 0
  unfolding level_mark newlines
  newlines-level_mark n (inl e) = rw e refl
  newlines-level_mark n (inr (inl e)) = rw e refl
  newlines-level_mark n (inr (inr (inl e))) = rw e refl
  newlines-level_mark n (inr (inr (inr e))) = rw e refl

  -- The logger of main.go ends one line for a record at one of the four levels whose attributes
  -- have plain names, and one more for each newline in the message, in a name or in a value: it
  -- escapes none of them.
  pub newlines-handle :
      (minimum : Option ℤ) (r : LogRecord)
      → All IsPlain r.attrs
      → IsMarked r.severity
      → newlines (
          handle level_string
            (record { minimum = minimum; replace_attr = some (replace_level level_string) })
            r)
        ≡ suc (newlines r.message + attr_newlines level_string r.attrs)
  newlines-handle minimum r h m = rw (handle_line minimum r h) (
      unfold newlines in
      omega (
        arith,
        newlines-append,
        newlines-level_mark r.severity m,
        newlines-print_attrs (marked_attr ∷ r.attrs),
      ))
    where
      marked_attr : Attr
      marked_attr = record {
        key = codes "level";
        value = text (level_mark level_string r.severity);
      }
