-- ===== src/Main/Usage.antt =====
-- main.go: the text that `printUsage` writes for the name of the program.
use gospidertrap.Common.{◌++◌, Text, codes}

unfoldable pub print_usage : Text → Text
print_usage name =
    codes "Usage: "
    ++ name
    ++ codes " [-p PORT] -a HTML_FILE -w WORDLIST_FILE [-e ENDPOINT] [-d DATA_DIR]"
    ++ codes
        " [-db-path DB_FILE] [-use-files] [-rate-limit N] [-rate-burst N] [-https] [-trust-proxy]\n"
    ++ codes "\n"
    ++ codes "-p            Port to run the server on (default: 8000)\n"
    ++ codes "-a            HTML file input, replace <a href> links\n"
    ++ codes "-e            Endpoint to point form GET requests to (optional)\n"
    ++ codes "-w            Wordlist to use for links\n"
    ++ codes "-d            Data directory for persistence (default: data, empty to disable)\n"
    ++ codes "-db-path      Path to SQLite database file (default: data/stats.db)\n"
    ++ codes "-use-files    Use legacy file-based persistence instead of SQLite\n"
    ++ codes "-rate-limit   Rate limit: requests per second per IP (default: 10)\n"
    ++ codes "-rate-burst   Rate limit: burst size per IP (default: 20)\n"
    ++ codes "-https        Enable HTTPS mode (sets Secure flag on cookies)\n"
    ++ codes
        "-trust-proxy  Trust X-Forwarded-For and X-Real-IP headers (use when behind reverse proxy)\n"
