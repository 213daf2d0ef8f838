-- ===== src/Admin/Pages.antt =====
-- The pages of the administration, frontend/admin/admin_service.cc.
use penn_cloud.Prelude.{
  ℕ, zero, suc, ◌+◌, Bytes, bytes, Bool, true, false, List, [], ◌∷◌, ◌++◌, ◌&&◌, if◌then◌else◌,
  text_of, to_string, contains,
}

-- What the pieces of the health report say of a front-end server; other pieces are passed over.
unfoldable pub frontend_status : List Bytes → List Bool
unfolding contains
frontend_status [] = []
frontend_status (fe ∷ pieces) =
    let rest = frontend_status pieces in
    if contains (bytes "alive") fe && contains (bytes "true") fe
    then true ∷ rest
    else if contains (bytes "alive") fe && contains (bytes "false") fe
    then false ∷ rest
    else rest

-- One row for each front-end server, which the script fills in.
unfoldable pub frontend_row : ℕ → Bytes
unfolding text_of to_string
frontend_row id = text_of (
    bytes "<div class='worker'>"
    ∷ bytes "<span>Front-End "
    ∷ to_string id
    ∷ bytes "</span>"
    ∷ bytes "<span>(127.0.0.1:"
    ∷ to_string (8080 + id)
    ∷ bytes ")</span>"
    ∷ bytes "<span id=\"frontend-status-"
    ∷ to_string id
    ∷ bytes "\" class=\"status\">...</span>"
    ∷ bytes "<button id=\"frontend-btn-"
    ∷ to_string id
    ∷ bytes "\" onclick=\"toggleFrontend("
    ∷ to_string (8080 + id)
    ∷ bytes ","
    ∷ to_string id
    ∷ bytes ")\">...</button>\n"
    ∷ bytes "</div>"
    ∷ [])

unfoldable pub frontend_rows : ℕ → List Bool → Bytes
unfolding frontend_row
frontend_rows id [] = []
frontend_rows id (alive ∷ status) = frontend_row id ++ frontend_rows (id + 1) status

unfoldable pub backend_row : ℕ → Bytes
unfolding text_of to_string
backend_row i = text_of (
    bytes "<div class=\"worker\">"
    ∷ bytes "<a href=\"/admin/backend?worker="
    ∷ to_string i
    ∷ bytes "\">Back-End "
    ∷ to_string i
    ∷ bytes "</a>"
    ∷ bytes "<span>(127.0.0.1:1000"
    ∷ to_string i
    ∷ bytes ")</span>\n"
    ∷ bytes "<span id=\"worker-status-"
    ∷ to_string i
    ∷ bytes "\" class=\"status\">...</span>"
    ∷ bytes "<input type=\"hidden\" name=\"workerId\" value=\""
    ∷ to_string i
    ∷ bytes "\" />"
    ∷ bytes "<input type=\"hidden\" id=\"action-input-"
    ∷ to_string i
    ∷ bytes "\" name=\"action\" value=\"shutdown\" />"
    ∷ bytes "<button id=\"worker-btn-"
    ∷ to_string i
    ∷ bytes "\" onclick=\"toggleWorker("
    ∷ to_string i
    ∷ bytes ")\">...</button>\n"
    ∷ bytes "</div>\n"
    ∷ [])

unfoldable pub backend_rows : ℕ → ℕ → Bytes
unfolding backend_row
backend_rows zero i = []
backend_rows (suc rounds) i = backend_row i ++ backend_rows rounds (i + 1)

-- The script, which asks for the states every two seconds.
unfoldable pub script : Bytes
unfolding text_of
script = text_of (
    bytes "\n"
    ∷ bytes "          <script>\n"
    ∷ bytes "            function toggleWorker(workerId) {\n"
    ∷ bytes
        "                const statusEl = document.getElementById(`worker-status-${workerId}`);\n"
    ∷ bytes "                const buttonEl = document.getElementById(`worker-btn-${workerId}`);\n"
    ∷ bytes "                const isAlive = statusEl.classList.contains('alive');\n"
    ∷ bytes "                const action = isAlive ? 'shutdown' : 'restart';\n"
    ∷ bytes "        \n"
    ∷ bytes "                fetch('/admin/toggle', {\n"
    ∷ bytes "                    method: 'POST',\n"
    ∷ bytes
        "                    headers: { 'Content-Type': 'application/x-www-form-urlencoded' },\n"
    ∷ bytes "                    body: `workerId=${workerId}&action=${action}`\n"
    ∷ bytes "                })\n"
    ∷ bytes "                .then(response => response.text())\n"
    ∷ bytes "                .then(_ => {\n"
    ∷ bytes "                    // Toggle the UI on success\n"
    ∷ bytes "                    console.log('toggled');\n"
    ∷ bytes "                })\n"
    ∷ bytes "                .catch(err => {\n"
    ∷ bytes "                    alert('Toggle failed');\n"
    ∷ bytes "                    console.error(err);\n"
    ∷ bytes "                });\n"
    ∷ bytes "            }\n"
    ∷ bytes "\n"
    ∷ bytes "            function toggleFrontend(port, id) {\n"
    ∷ bytes "                const statusEl = document.getElementById(`frontend-status-${id}`);\n"
    ∷ bytes "\t\t\t\tconsole.log(\"Fe \"+id+\" status: \"+statusEl);\n"
    ∷ bytes "                const btnEl = document.getElementById(`frontend-btn-${id}`);\n"
    ∷ bytes "                const isAlive = statusEl.classList.contains('alive');\n"
    ∷ bytes "                const action = isAlive ? 'shutdown' : 'restart';\n"
    ∷ bytes "\n"
    ∷ bytes "                fetch('/admin/frontend-toggle', {\n"
    ∷ bytes "                    method: 'POST',\n"
    ∷ bytes
        "                    headers: { 'Content-Type': 'application/x-www-form-urlencoded' },\n"
    ∷ bytes "                    body: `port=${port}&action=${action}`\n"
    ∷ bytes "                })\n"
    ∷ bytes "                .then(res => res.text())\n"
    ∷ bytes "                .then(text => {\n"
    ∷ bytes "                    console.log(`[Frontend ${port}] Toggle ${action}: ${text}`);\n"
    ∷ bytes "                    setTimeout(fetchStatus, 500);  // Refresh status\n"
    ∷ bytes "                })\n"
    ∷ bytes "                .catch(err => {\n"
    ∷ bytes "                    console.error(`[Frontend ${port}] Toggle failed`, err);\n"
    ∷ bytes "                    alert(`Toggle failed for frontend ${port}`);\n"
    ∷ bytes "                });\n"
    ∷ bytes "            }\n"
    ∷ bytes "\n"
    ∷ bytes "\n"
    ∷ bytes "\n"
    ∷ bytes "            function fetchStatus() {\n"
    ∷ bytes "              fetch('/admin/worker-status')\n"
    ∷ bytes "                .then(res => res.json())\n"
    ∷ bytes "                .then(data => {\n"
    ∷ bytes "                  data.workers.forEach(worker => {\n"
    ∷ bytes "                    const id = worker.id;\n"
    ∷ bytes "                    const alive = worker.alive;\n"
    ∷ bytes "        \n"
    ∷ bytes
        "                    const statusElem = document.getElementById('worker-status-' + id);\n"
    ∷ bytes "                    const btnElem = document.getElementById('worker-btn-' + id);\n"
    ∷ bytes "                    const inputElem = document.getElementById('action-input-' + id);\n"
    ∷ bytes "        \n"
    ∷ bytes "                    if (statusElem) {\n"
    ∷ bytes "                      statusElem.textContent = alive ? 'Alive' : 'Dead';\n"
    ∷ bytes "                      statusElem.className = 'status ' + (alive ? 'alive' : 'dead');\n"
    ∷ bytes "                    }\n"
    ∷ bytes "                    if (btnElem) {\n"
    ∷ bytes "                      btnElem.textContent = alive ? 'Shutdown' : 'Restart';\n"
    ∷ bytes "                    }\n"
    ∷ bytes "                    if (inputElem) {\n"
    ∷ bytes "                      inputElem.value = alive ? 'shutdown' : 'restart';\n"
    ∷ bytes "                    }\n"
    ∷ bytes "                  });\n"
    ∷ bytes "                  data.frontends.forEach(fe => {\n"
    ∷ bytes "                        const id = fe.id;\n"
    ∷ bytes "                        const alive = fe.alive;\n"
    ∷ bytes
        "                        const row = document.querySelector(`#frontend-status-${id}`);\n"
    ∷ bytes "                        if (row) {\n"
    ∷ bytes "                            row.textContent = alive ? \"Alive\" : \"Dead\";\n"
    ∷ bytes
        "                            row.className = \"status \" + (alive ? \"alive\" : \"dead\");\n"
    ∷ bytes "                        }\n"
    ∷ bytes "\n"
    ∷ bytes "                        const btn = document.querySelector(`#frontend-btn-${id}`);\n"
    ∷ bytes
        "                        if (btn) btn.textContent = alive ? \"Shutdown\" : \"Restart\";\n"
    ∷ bytes "                    });\n"
    ∷ bytes "                });\n"
    ∷ bytes "            }\n"
    ∷ bytes "        \n"
    ∷ bytes "            setInterval(fetchStatus, 2000);\n"
    ∷ bytes "            window.onload = fetchStatus;\n"
    ∷ bytes "            console.log(\"Script loaded and fetchStatus registered.\");\n"
    ∷ bytes "          </script>\n"
    ∷ bytes "\n"
    ∷ bytes "\n"
    ∷ bytes "        </body>\n"
    ∷ bytes "        </html>\n"
    ∷ bytes "        "
    ∷ [])

unfoldable pub home_page : List Bool → Bytes
unfolding text_of frontend_rows backend_rows script
home_page status = text_of (
    bytes "\n"
    ∷ bytes "        <!DOCTYPE html>\n"
    ∷ bytes "        <html>\n"
    ∷ bytes "        <head>\n"
    ∷ bytes "          <title>Admin Dashboard</title>\n"
    ∷ bytes "          <style>\n"
    ∷ bytes "            body { font-family: Arial; padding: 20px; }\n"
    ∷ bytes
        "            .worker { display: flex; justify-content: space-between; padding: 6px; border: 1px solid #ccc; margin: 4px 0; align-items: center; }\n"
    ∷ bytes "            .status { font-weight: bold; padding: 0 10px; }\n"
    ∷ bytes "            .alive { color: green; }\n"
    ∷ bytes "            .dead { color: red; }\n"
    ∷ bytes "            button { padding: 4px 10px; }\n"
    ∷ bytes "          </style>\n"
    ∷ bytes "        </head>\n"
    ∷ bytes "        <body>\n"
    ∷ bytes "          <h1>Admin Dashboard</h1>\n"
    ∷ bytes "          <h2>Front-End Workers</h2>"
    ∷ frontend_rows 1 status
    ∷ bytes "\n"
    ∷ bytes "          <h2>Back-End Workers</h2>\n"
    ∷ bytes "        "
    ∷ backend_rows 6 1
    ∷ script
    ∷ [])
