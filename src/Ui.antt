-- ===== src/Ui.antt =====
-- internal/ui/banner.go: sizes and the summary of the configuration. What is printed is a text, in
-- UTF-8.
pub mod Size
mod Tests
use gospidertrap.Common.{
  ℕ, zero, suc, ◌+◌, ◌*◌, ◌/◌, ◌%◌, ◌^◌, Bool, Option, none, some, [], ◌++◌, Text, codes, leb,
  text_eq, if◌then◌else◌, get_elem?, ◌∷◌,
}
use gospidertrap.Common.Int.{ℤ, pos, negsuc}
use gospidertrap.Strings.Number.{itoa}
use gospidertrap.Random.{encode_runes}

abbrev pub unit : ℕ
unit = 1024

-- The loop over `n`, with `div` and `exp`; `none` means that the rounds ran out.
unfoldable pub size_loop : ℕ → ℕ → ℕ → ℕ → Option (ℕ × ℕ)
size_loop zero n div exp = none
size_loop (suc rounds) n div exp =
    let rest = size_loop rounds (n / unit) (div * unit % 2 ^ 64) (exp + 1) in
    if leb unit n then rest else some (div, exp)

-- More rounds than an `int` can need.
abbrev pub size_rounds : ℕ
size_rounds = 7

-- `quotient bytes div` is `%.1f` of the quotient as a float64. `none` is an index out of range, or
-- rounds that ran out.
module _ (quotient : ℕ → ℕ → Text) where
  unfoldable pub format_large : ℕ → ℕ → ℕ → Option Text
  format_large bytes div exp = elim (get_elem? (codes "KMGTPE") exp) [
    | none ↦ none
    | some letter ↦ some (quotient bytes div ++ b' ' ∷ letter ∷ b'B' ∷ [])
  ]

  unfoldable pub format_size : ℤ → Option Text
  format_size (negsuc n) = some (itoa (negsuc n) ++ codes " B")
  format_size (pos bytes) =
      if leb unit bytes
      then elim (size_loop size_rounds (bytes / unit) unit 0) [
        | none ↦ none
        | some (div, exp) ↦ format_large bytes div exp
      ]
      else some (itoa (pos bytes) ++ codes " B")

  unfoldable pub build_template_summary : Text → ℤ → Option Text
  build_template_summary filename size =
      if text_eq filename [] then some [] else elim (format_size size) [
        | none ↦ none
        | some shown ↦ some (filename ++ codes " (" ++ shown ++ codes ")")
      ]

unfoldable pub build_wordlist_summary : Text → ℤ → Text
build_wordlist_summary filename entries =
    if text_eq filename [] then [] else filename ++ codes " (" ++ itoa entries ++ codes " entries)"

unfoldable pub build_rate_limit_summary : ℤ → ℤ → Text
build_rate_limit_summary requests_per_sec burst =
    itoa requests_per_sec ++ codes " req/sec (burst: " ++ itoa burst ++ codes ")"

unfoldable pub build_persist_mode_summary : Bool → Text → Text → Text
build_persist_mode_summary use_files db_path data_dir =
    if use_files
    then codes "File-based (legacy) - " ++ data_dir
    else if text_eq db_path []
    then codes "Disabled"
    else codes "SQLite database - " ++ db_path

pub record StartupInfo : Type 0 where
  pub port : Text
  pub admin_login_url : Text
  pub admin_url : Text
  pub persist_mode : Text
  pub rate_limit : Text
  pub wordlist : Text
  pub template : Text

abbrev pub or_else : Text → Text → Text
or_else [] other = other
or_else (c ∷ s) other = c ∷ s

-- `fmt.Println(s)`, for the code points of a literal.
abbrev line : Text → Text
line s = encode_runes s ++ codes "\n"

abbrev rule_line : Text
rule_line = line (codes "━━━━━━━━━━━━━━━━━━━━━━━━━━━━━━━━━━━━━━━━━━━━━━━━━━━━━━━━━━━━━━━━━━")

-- A line with a label and a value.
abbrev labelled : Text → Text → Text
labelled label value = label ++ value ++ codes "\n"

-- `started` is the time, formatted.
unfoldable pub print_startup_info : Text → StartupInfo → Text
print_startup_info started info =
    rule_line
    ++ labelled (codes "  Server started at ") started
    ++ rule_line
    ++ codes "\n  SERVER\n"
    ++ labelled (codes "     Port:            ") info.port
    ++ labelled (codes "     Rate Limiting:   ") info.rate_limit
    ++ codes "\n  CONTENT\n"
    ++ labelled (codes "     Wordlist:        ") (or_else info.wordlist (codes "Random links"))
    ++ labelled (codes "     Template:        ") (or_else info.template (codes "Generated pages"))
    ++ codes "\n   PERSISTENCE\n"
    ++ labelled (codes "     Mode:            ") info.persist_mode
    ++ codes "\n  ADMIN ACCESS\n"
    ++ labelled (codes "     Login URL:       ") info.admin_login_url
    ++ labelled (codes "     Dashboard:       ") info.admin_url
    ++ codes "\n"
    ++ line (codes "  ⚠" ++ 0xfe0f ∷ codes "  SECURITY WARNING:")
    ++ codes "     The login URL above contains a one-time authentication token.\n"
    ++ codes "     Keep it secure and rotate logs containing this token.\n\n"
    ++ rule_line
    ++ codes "  Press Ctrl+C to stop the server\n"
    ++ rule_line
    ++ codes "\n"

unfoldable pub print_shutdown : Text
print_shutdown =
    codes "\n" ++ rule_line ++ codes "  Server shutting down gracefully...\n" ++ rule_line

unfoldable pub print_shutdown_complete : Text
print_shutdown_complete = codes "\n" ++ line (codes "  ✓ Server stopped successfully") ++ codes "\n"

-- The message, and the text of the error unless it is nil.
unfoldable pub print_error : Text → Option Text → Text
print_error message err =
    codes "\n"
    ++ rule_line
    ++ encode_runes (codes "  ❌ ERROR: ")
    ++ message
    ++ codes "\n"
    ++ elim err [ none ↦ [] | some e ↦ labelled (codes "     ") e ]
    ++ rule_line
    ++ codes "\n"

-- A picture of the program's name.
abbrev pub banner : Text
banner =
    codes "\n  __ _  ___  ___ _ __ (_) __| | ___ _ __| |_ _ __ __ _ _ __\n"
    ++ codes " / _' |/ _ \\/ __| '_ \\| |/ _' |/ _ \\ '__| __| '__/ _' | '_ \\\n"
    ++ codes "| (_| | (_) \\__ \\ |_) | | (_| |  __/ |  | |_| | | (_| | |_) |\n"
    ++ codes " \\__, |\\___/|___/ .__/|_|\\__,_|\\___|_|   \\__|_|  \\__,_| .__/\n"
    ++ codes " |___/          |_|                                    |_|\n"

-- `PrintBanner`
abbrev pub print_banner : Text
print_banner = banner
