-- ===== src/Admin/Tablets.antt =====
-- The pages of a worker and of a tablet, frontend/admin/admin_service.cc.
use penn_cloud.Prelude.{
  ℕ, zero, suc, ◌+◌, Bytes, bytes, Bool, List, [], ◌∷◌, ◌++◌, ◌==◌, ◌||◌, leb, if◌then◌else◌,
  text_of, to_string, length, take,
}
use penn_cloud.Tablet.{Tablet}
use penn_cloud.Map.{Map}
use penn_cloud.Placement.{num_tablets, prev1, prev2}

-- `isTabletStoredHere`
unfoldable pub is_tablet_stored_here : ℕ → ℕ → Bool
is_tablet_stored_here worker_id tablet_id =
    tablet_id == worker_id || (tablet_id == prev1 worker_id || tablet_id == prev2 worker_id)

tablet_link : ℕ → ℕ → Bytes
unfolding text_of to_string
tablet_link worker_id tablet = text_of (
    bytes "<li class='tablet-item'><a href='/admin/backend?worker="
    ∷ to_string worker_id
    ∷ bytes "&tablet="
    ∷ to_string tablet
    ∷ bytes "'>Tablet "
    ∷ to_string tablet
    ∷ bytes "</a></li>\n"
    ∷ [])

-- The tablets from a number on that the worker holds.
unfoldable pub tablets_shown : ℕ → ℕ → ℕ → List ℕ
unfolding is_tablet_stored_here
tablets_shown zero tablet worker_id = []
tablets_shown (suc rounds) tablet worker_id =
    let rest = tablets_shown rounds (tablet + 1) worker_id in
    if is_tablet_stored_here worker_id tablet then tablet ∷ rest else rest

tablet_links : ℕ → List ℕ → Bytes
unfolding tablet_link
tablet_links worker_id [] = []
tablet_links worker_id (tablet ∷ tablets) =
    tablet_link worker_id tablet ++ tablet_links worker_id tablets

unfoldable pub worker_page : ℕ → Bytes
unfolding text_of to_string tablets_shown tablet_links
worker_page worker_id = text_of (
    bytes "\n"
    ∷ bytes "    <!DOCTYPE html>\n"
    ∷ bytes "    <html>\n"
    ∷ bytes "    <head>\n"
    ∷ bytes "    <title>Worker Tablets</title>\n"
    ∷ bytes "    <style>\n"
    ∷ bytes "        body { font-family: Arial; padding: 20px; }\n"
    ∷ bytes "        .tablet-list { list-style: none; padding: 0; }\n"
    ∷ bytes "        .tablet-item { margin: 10px 0; }\n"
    ∷ bytes "        a { text-decoration: none; color: #007BFF; font-size: 18px; }\n"
    ∷ bytes "        a:hover { text-decoration: underline; }\n"
    ∷ bytes "    </style>\n"
    ∷ bytes "    </head>\n"
    ∷ bytes "    <body>\n"
    ∷ bytes "    <h1>Tablets Stored in Worker "
    ∷ to_string worker_id
    ∷ bytes "</h1>\n"
    ∷ bytes "    <ul class=\"tablet-list\">\n"
    ∷ bytes "    "
    ∷ tablet_links worker_id (tablets_shown num_tablets 1 worker_id)
    ∷ bytes "\n"
    ∷ bytes "    </ul>\n"
    ∷ bytes "    </body>\n"
    ∷ bytes "    </html>\n"
    ∷ bytes "    "
    ∷ [])

-- A value of more than 200 bytes is shown in two forms, under a name from `rand`.
long_value : ℕ → Bytes → Bytes
unfolding text_of to_string
long_value random val =
    let id : Bytes = bytes "cell_" ++ to_string random in
    text_of (
      bytes "<div id='"
      ∷ id
      ∷ bytes "_preview' class='value-preview'>"
      ∷ take 200 val
      ∷ bytes "...</div>"
      ∷ bytes "<div id='"
      ∷ id
      ∷ bytes "_full' class='value-full'>"
      ∷ val
      ∷ bytes "</div>"
      ∷ bytes "<button id='"
      ∷ id
      ∷ bytes "_btn' class='toggle-btn' onclick=\"toggle('"
      ∷ id
      ∷ bytes "')\">Show more</button>"
      ∷ [])

-- The cells of a row, the first of which names it; the number counts the calls of `rand`.
cells_text : (ℕ → ℕ) → ℕ → Bytes → Map Bytes → ℕ × Bytes
unfolding text_of long_value
cells_text random k head [] = (k, [])
cells_text random k head ((col, val) ∷ cols) =
    let short : Bool = leb (length val) 200 in
    let shown : Bytes = if short then val else long_value (random k) val in
    let rest = cells_text random (if short then k else k + 1) [] cols in
    (
      rest.0,
      text_of (
          bytes "<tr>"
          ∷ head
          ∷ bytes "<td>"
          ∷ col
          ∷ bytes "</td><td>"
          ∷ shown
          ∷ bytes "</td></tr>"
          ∷ rest.1
          ∷ []),
    )

rows_text : (ℕ → ℕ) → ℕ → Tablet → ℕ × Bytes
unfolding cells_text text_of to_string
rows_text random k [] = (k, [])
rows_text random k ((row, cols) ∷ rows) =
    let head : Bytes =
      text_of
        (bytes "<td rowspan='" ∷ to_string (length cols) ∷ bytes "'>" ∷ row ∷ bytes "</td>" ∷ []) in
    let here = cells_text random k head cols in
    let rest = rows_text random here.0 rows in (rest.0, here.1 ++ rest.1)

-- The page of a tablet, whose maps are iterated in the order of the lists, and the number of calls
-- of `rand`.
unfoldable pub table_page : (ℕ → ℕ) → ℕ → ℕ → Tablet → ℕ × Bytes
unfolding text_of to_string rows_text
table_page random worker_id tablet_id table =
    let rows = rows_text random 0 table in
    (
      rows.0,
      text_of (
          bytes "\n"
          ∷ bytes "    <html>\n"
          ∷ bytes "    <head>\n"
          ∷ bytes "      <title>Tablet View</title>\n"
          ∷ bytes "      <style>\n"
          ∷ bytes "        td { vertical-align: top; white-space: pre-wrap; max-width: 600px; }\n"
          ∷ bytes "        .value-preview { display: block; }\n"
          ∷ bytes "        .value-full { display: none; }\n"
          ∷ bytes "        .toggle-btn { margin-top: 5px; }\n"
          ∷ bytes "      </style>\n"
          ∷ bytes "      <script>\n"
          ∷ bytes "        function toggle(id) {\n"
          ∷ bytes "          const preview = document.getElementById(id + \"_preview\");\n"
          ∷ bytes "          const full = document.getElementById(id + \"_full\");\n"
          ∷ bytes "          const btn = document.getElementById(id + \"_btn\");\n"
          ∷ bytes "          const isCollapsed = full.style.display === \"none\";\n"
          ∷ bytes "          full.style.display = isCollapsed ? \"block\" : \"none\";\n"
          ∷ bytes "          preview.style.display = isCollapsed ? \"none\" : \"block\";\n"
          ∷ bytes "          btn.textContent = isCollapsed ? \"Show less\" : \"Show more\";\n"
          ∷ bytes "        }\n"
          ∷ bytes "      </script>\n"
          ∷ bytes "    </head>\n"
          ∷ bytes "    <body>\n"
          ∷ bytes "    "
          ∷ bytes "<h1>Tablet "
          ∷ to_string tablet_id
          ∷ bytes " on Worker "
          ∷ to_string worker_id
          ∷ bytes "</h1>"
          ∷ bytes "<table border='1'><tr><th>Row</th><th>Column</th><th>Value</th></tr>"
          ∷ rows.1
          ∷ bytes "</table><br><a href='/admin/dashboard'>Back</a></body></html>"
          ∷ []),
    )
