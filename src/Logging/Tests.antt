-- ===== src/Logging/Tests.antt =====
-- Tests of the lines of the log.
use gospidertrap.Common.{
  suc, ◌+◌, ◌≡◌, refl, inl, inr, none, some, [], ◌∷◌, Text, codes, text_eq, All,
}
use gospidertrap.Common.Int.{ℤ, pos}
use gospidertrap.Strings.{contains, has_prefix}
use gospidertrap.Logging.{
  text, other, LogRecord, new_handler, enabled, filter_attrs, extract_msg, print_msg, print_value,
  print_attr, print_attrs, build_line, handle, level_mark, replace_level,
}
use gospidertrap.Logging.Lines.{newlines, IsPlain, attr_newlines, newlines-handle}

abbrev names : ℤ → Text
names n = codes "INFO"

abbrev cancelled : Text → LogRecord
cancelled path = record {
  time = codes "noon";
  severity = pos 4;
  message = codes "Request cancelled or timed out";
  attrs =
      record { key = codes "path"; value = text path }
      ∷ record { key = codes "error"; value = other (codes "context canceled") }
      ∷ [];
}

line_test :
    handle names
      (record { minimum = some (pos 0); replace_attr = some (replace_level names) })
      (cancelled (codes "/a b"))
    ≡ codes "Request cancelled or timed out (level=[?], path=\"/a b\", error=context canceled)\n"
unfolding handle filter_attrs extract_msg build_line print_msg print_attrs print_attr print_value
    level_mark replace_level text_eq contains has_prefix
line_test = refl

-- A handler without options has no level to compare with.
no_options : enabled (new_handler none) (pos 0) ≡ none
unfolding enabled new_handler
no_options = refl

-- A path with a newline, which makes a second line.
abbrev forged : LogRecord
forged = cancelled (codes "/\nSuccessful admin login")

newlines-handle_example :
    newlines (
      handle names
        (record { minimum = some (pos 0); replace_attr = some (replace_level names) })
        forged)
    ≡ suc (newlines forged.message + attr_newlines names forged.attrs)
newlines-handle_example = newlines-handle names (some (pos 0)) forged plain (inr (inr (inl refl)))
  where
    plain : All IsPlain forged.attrs
    plain = unfold text_eq in ((refl, refl, refl, refl), ((refl, refl, refl, refl), tt))
