-- ===== src/Admin/Page.antt =====
-- internal/admin/renderer.go: the dashboard. Each function returns what the method of that name
-- writes to the builder; `none` is the panic of an index out of range.
use gospidertrap.Common.{
  ℕ, Bool, ◌&&◌, false, true, Option, none, some, List, [], ◌∷◌, ◌++◌, Text, codes, if◌then◌else◌,
  length, take,
}
use gospidertrap.Common.Int.{ℤ, pos, pos_part, lt_int}
use gospidertrap.Strings.Number.{itoa}
use gospidertrap.Content.Html.{escape_string}
use gospidertrap.Stats.{RequestInfo, Time}
use gospidertrap.Stats.Charts.{ChartData, Series}
use gospidertrap.Admin.Fixed.{html_header, chart_script}

pub record Renderer : Type 0 where
  pub admin_path : Text

unfoldable pub new_renderer : Text → Renderer
new_renderer admin_path = record { admin_path = admin_path }

-- `a` followed by `b`, or the panic of either.
abbrev pub append? : Option Text → Option Text → Option Text
append? none b = none
append? (some a) none = none
append? (some a) (some b) = some (a ++ b)

-- The loop over the labels of a chart, which reads `Data[i]` as well. `cell` opens the first cell.
unfoldable pub count_rows : Text → List Text → List ℕ → Option Text
count_rows cell [] counts = some []
count_rows cell (label ∷ labels) [] = none
count_rows cell (label ∷ labels) (n ∷ counts) =
    append?
      (some
        (cell ++ escape_string label ++ codes "</td><td>" ++ itoa (pos n) ++ codes "</td></tr>\n"))
      (count_rows cell labels counts)

unfoldable pub request_rows : (Time → Text) → List RequestInfo → Text
request_rows format_time [] = []
request_rows format_time (req ∷ reqs) =
    codes "<tr><td>"
    ++ escape_string (format_time req.timestamp)
    ++ codes "</td><td class=\"ip\">"
    ++ escape_string req.ip
    ++ codes "</td><td>"
    ++ escape_string req.path
    ++ codes "</td><td>"
    ++ escape_string req.user_agent
    ++ codes "</td></tr>\n"
    ++ request_rows format_time reqs

abbrev pub is_empty {ℓ} : {A : Type ℓ} → List A → Bool
is_empty [] = true
is_empty (x ∷ xs) = false

abbrev pub table_head : Text → Text → Text
table_head title columns =
    codes "<div class=\"stat-box\">\n" ++ title ++ codes "<table>\n" ++ columns

-- The table of a chart, which is left out when there are no labels.
abbrev pub count_table : Text → Text → Text → Series → Option Text
count_table title columns cell series =
    if is_empty series.labels
    then some []
    else append? (some (table_head title columns))
        (append? (count_rows cell series.labels series.counts) (some (codes "</table>\n</div>\n")))

-- `duration_string` is `time.Duration.String`.
unfoldable pub write_stats_box : (ℤ → Text) → ℤ → ℕ → ℕ → ℕ → Text
write_stats_box duration_string uptime total_requests unique_ips unique_uas =
    codes "<div class=\"stat-box\">\n"
    ++ codes "<h2>Server Statistics</h2>\n"
    ++ codes "<p><strong>Uptime:</strong> "
    ++ escape_string (duration_string uptime)
    ++ codes "</p>\n<p><strong>Total Requests:</strong> "
    ++ itoa (pos total_requests)
    ++ codes "</p>\n<p><strong>Unique IPs:</strong> "
    ++ itoa (pos unique_ips)
    ++ codes "</p>\n<p><strong>Unique User Agents:</strong> "
    ++ itoa (pos unique_uas)
    ++ codes "</p>\n</div>\n"

-- The box of a chart, by its title and the name of its canvas.
abbrev pub chart_box : Text → Text → Text
chart_box title canvas =
    codes "<div class=\"chart-table-row\">\n"
    ++ codes "<div class=\"stat-box\">\n"
    ++ title
    ++ codes "<div class=\"chart-container\"><canvas id=\""
    ++ canvas
    ++ codes "\"></canvas></div>\n</div>\n"

abbrev pub ip_title : Text
ip_title = codes "<h2>Top IP Addresses</h2>\n"

abbrev pub ua_title : Text
ua_title = codes "<h2>Top User Agents</h2>\n"

abbrev pub ip_columns : Text
ip_columns = codes "<tr><th>IP Address</th><th>Request Count</th></tr>\n"

abbrev pub ip_cell : Text
ip_cell = codes "<tr><td class=\"ip\">"

abbrev pub ua_columns : Text
ua_columns = codes "<tr><th>User Agent</th><th>Request Count</th></tr>\n"

abbrev pub ua_cell : Text
ua_cell = codes "<tr><td>"

unfoldable pub write_top_ips_section : ChartData → Option Text
write_top_ips_section chart_data =
    append? (some (chart_box ip_title (codes "ipChart"))) (
      append? (count_table ip_title ip_columns ip_cell chart_data.top_ips)
        (some (codes "</div>\n")))

unfoldable pub write_top_uas_section : ChartData → Option Text
write_top_uas_section chart_data = append? (some (chart_box ua_title (codes "uaChart"))) (
    append? (count_table ua_title ua_columns ua_cell chart_data.top_user_agents)
      (some (codes "</div>\n")))

-- `displayCount`, for a list of that length.
unfoldable pub display_count : ℤ → ℕ → ℕ
display_count max_display n =
    if lt_int (pos 0) max_display && lt_int max_display (pos n) then pos_part max_display else n

-- `format_time` is `Time.Format` with the layout of the table.
unfoldable pub write_recent_requests_section : (Time → Text) → List RequestInfo → ℤ → Text
write_recent_requests_section format_time reqs max_display =
    codes "<div class=\"stat-box\">\n<h2>Recent Requests</h2>\n"
    ++ (if is_empty reqs
        then codes "<p>No recent requests yet.</p>\n"
        else codes "<table>\n"
          ++ codes
              "<tr><th>Timestamp</th><th>IP Address</th><th>Path</th><th>User Agent</th></tr>\n"
          ++ request_rows format_time (take (display_count max_display (length reqs)) reqs)
          ++ codes "</table>\n")
    ++ codes "</div>\n"

unfoldable pub write_chart_script : Renderer → Text → Text
write_chart_script r nonce =
    codes "<script"
    ++ (if is_empty nonce then [] else codes " nonce=\"" ++ escape_string nonce ++ codes "\"")
    ++ codes ">\nconst baseDataUrl = '"
    ++ escape_string r.admin_path
    ++ chart_script

module _ (duration_string : ℤ → Text) (format_time : Time → Text) where
  unfoldable pub render_admin_ui :
      Renderer → ChartData → ℤ → ℕ → ℕ → ℕ → List RequestInfo → ℤ → Text → Option Text
  render_admin_ui r chart_data uptime total_requests unique_ips unique_uas recent_requests
        max_display nonce =
      append?
        (some (
          html_header
          ++ write_stats_box duration_string uptime total_requests unique_ips unique_uas))
        (append? (write_top_ips_section chart_data) (
          append? (write_top_uas_section chart_data) (
            some (
              write_recent_requests_section format_time recent_requests max_display
              ++ write_chart_script r nonce
              ++ codes "</body>\n</html>"))))
