-- ===== src/Admin/Fixed.antt =====
-- internal/admin/renderer.go: the fixed texts of the dashboard, its header and its script.
use gospidertrap.Common.{◌++◌, Text, codes}

-- What `writeHTMLHeader` writes.
unfoldable pub html_header : Text
html_header =
    codes "<!DOCTYPE html>\n<html>\n<head>\n"
    ++ codes "<title>gospidertrap - dashboard</title>\n"
    ++ codes "<style>\n"
    ++ codes "body { font-family: monospace; margin: 20px; background: #f5f5f5; }\n"
    ++ codes "h1 { color: #333; }\n"
    ++ codes
        ".stat-box { background: white; padding: 15px; margin: 10px 0; border-radius: 5px; box-shadow: 0 2px 4px rgba(0,0,0,0.1); }\n"
    ++ codes "table { width: 100%; border-collapse: collapse; margin-top: 10px; }\n"
    ++ codes "th, td { padding: 8px; text-align: left; border-bottom: 1px solid #ddd; }\n"
    ++ codes "th { background-color: #4CAF50; color: white; }\n"
    ++ codes "tr:hover { background-color: #f5f5f5; }\n"
    ++ codes ".ip { font-family: monospace; }\n"
    ++ codes ".chart-container { position: relative; height: 300px; margin: 20px 0; }\n"
    ++ codes
        ".charts-grid { display: grid; grid-template-columns: 1fr 1fr; gap: 20px; margin: 20px 0; }\n"
    ++ codes "@media (max-width: 768px) { .charts-grid { grid-template-columns: 1fr; } }\n"
    ++ codes
        ".chart-table-row { display: grid; grid-template-columns: 1fr 1fr; gap: 20px; margin: 20px 0; }\n"
    ++ codes "@media (max-width: 768px) { .chart-table-row { grid-template-columns: 1fr; } }\n"
    ++ codes "</style>\n"
    ++ codes
        "<script src=\"https://cdn.jsdelivr.net/npm/chart.js@4.4.0/dist/chart.umd.min.js\"></script>\n"
    ++ codes "</head>\n<body>\n"
    ++ codes "<h1>gospidertrap</h1>\n"

-- What `writeChartScript` writes behind the path of the admin page.
unfoldable pub chart_script : Text
chart_script =
    codes "/data';\n"
    ++ codes "let ipChart = null;\n"
    ++ codes "let uaChart = null;\n"
    ++ codes "\n"
    ++ codes "async function loadCharts() {\n"
    ++ codes "  try {\n"
    ++ codes "    const response = await fetch(baseDataUrl);\n"
    ++ codes "    if (!response.ok) throw new Error('Failed to load chart data');\n"
    ++ codes "    const data = await response.json();\n"
    ++ codes "\n"
    ++ codes "    // Top IPs Donut Chart\n"
    ++ codes "    if (!ipChart) {\n"
    ++ codes "      ipChart = new Chart(document.getElementById('ipChart'), {\n"
    ++ codes "      type: 'doughnut',\n"
    ++ codes "      data: {\n"
    ++ codes "        labels: data.topIPs.labels,\n"
    ++ codes "        datasets: [{\n"
    ++ codes "          data: data.topIPs.data,\n"
    ++ codes "          backgroundColor: [\n"
    ++ codes "            'rgba(255, 99, 132, 0.8)',\n"
    ++ codes "            'rgba(54, 162, 235, 0.8)',\n"
    ++ codes "            'rgba(255, 206, 86, 0.8)',\n"
    ++ codes "            'rgba(75, 192, 192, 0.8)',\n"
    ++ codes "            'rgba(153, 102, 255, 0.8)',\n"
    ++ codes "            'rgba(255, 159, 64, 0.8)',\n"
    ++ codes "            'rgba(199, 199, 199, 0.8)',\n"
    ++ codes "            'rgba(83, 102, 255, 0.8)',\n"
    ++ codes "          ]\n"
    ++ codes "        }]\n"
    ++ codes "      },\n"
    ++ codes "      options: {\n"
    ++ codes "        responsive: true,\n"
    ++ codes "        maintainAspectRatio: false,\n"
    ++ codes "        plugins: {\n"
    ++ codes "          legend: { position: 'bottom' }\n"
    ++ codes "        }\n"
    ++ codes "      }\n"
    ++ codes "    });\n"
    ++ codes "    }\n"
    ++ codes "\n"
    ++ codes "    // Top User Agents Donut Chart\n"
    ++ codes "    if (!uaChart) {\n"
    ++ codes "      uaChart = new Chart(document.getElementById('uaChart'), {\n"
    ++ codes "      type: 'doughnut',\n"
    ++ codes "      data: {\n"
    ++ codes "        labels: data.topUserAgents.labels,\n"
    ++ codes "        datasets: [{\n"
    ++ codes "          data: data.topUserAgents.data,\n"
    ++ codes "          backgroundColor: [\n"
    ++ codes "            'rgba(255, 99, 132, 0.8)',\n"
    ++ codes "            'rgba(54, 162, 235, 0.8)',\n"
    ++ codes "            'rgba(255, 206, 86, 0.8)',\n"
    ++ codes "            'rgba(75, 192, 192, 0.8)',\n"
    ++ codes "            'rgba(153, 102, 255, 0.8)',\n"
    ++ codes "            'rgba(255, 159, 64, 0.8)',\n"
    ++ codes "            'rgba(199, 199, 199, 0.8)',\n"
    ++ codes "            'rgba(83, 102, 255, 0.8)'\n"
    ++ codes "          ]\n"
    ++ codes "        }]\n"
    ++ codes "      },\n"
    ++ codes "      options: {\n"
    ++ codes "        responsive: true,\n"
    ++ codes "        maintainAspectRatio: false,\n"
    ++ codes "        plugins: {\n"
    ++ codes "          legend: { position: 'bottom' }\n"
    ++ codes "        }\n"
    ++ codes "      }\n"
    ++ codes "    });\n"
    ++ codes "    }\n"
    ++ codes "  } catch (error) {\n"
    ++ codes "    console.error('Error loading charts:', error);\n"
    ++ codes "  }\n"
    ++ codes "}\n"
    ++ codes "\n"
    ++ codes "loadCharts();\n"
    ++ codes "</script>\n"
