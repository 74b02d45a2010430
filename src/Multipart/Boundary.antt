-- ===== src/Multipart/Boundary.antt =====
-- `extractBoundaryFromContentType` of src/face-listener/hikvision-multipart-json.parser.ts.
use face2go_server.Base.{ℕ, Bool, not, ◌||◌, Option, none, some, [], ◌∷◌, ◌==◌, if◌then◌else◌}
use face2go_server.Multipart.Bytes.{Bytes, is_space, take_while}
use face2go_server.Multipart.Headers.{codes, strip_name}

abbrev is_quote : ℕ → Bool
is_quote c = c == 34 || c == 39

-- `[^;\s"']`
abbrev in_boundary : ℕ → Bool
in_boundary c = not (c == b';' || is_space c || is_quote c)

abbrev or_later : Bytes → Option Bytes → Option Bytes
or_later [] later = later
or_later (c ∷ cs) later = some (c ∷ cs)

abbrev first_match : Option Bytes → Option Bytes → Option Bytes
first_match none later = later
first_match (some after) later = or_later (take_while in_boundary after) later

-- `/boundary=([^;\s"']+)/i`, its group at the first place that matches
match_boundary : Bytes → Option Bytes
match_boundary [] = none
match_boundary (c ∷ cs) = first_match (strip_name (codes "boundary=") (c ∷ cs)) (match_boundary cs)

abbrev without_first_quote : Bytes → Bytes
without_first_quote [] = []
without_first_quote (c ∷ cs) = if is_quote c then cs else c ∷ cs

without_last_quote : Bytes → Bytes
without_last_quote [] = []
without_last_quote (c ∷ []) = if is_quote c then [] else c ∷ []
without_last_quote (c ∷ d ∷ cs) = c ∷ without_last_quote (d ∷ cs)

abbrev named : Option Bytes → Bytes
named none = codes "myboundary"
named (some boundary) = without_last_quote (without_first_quote boundary)

abbrev searched : Bytes → Option Bytes
searched [] = none
searched (c ∷ cs) = match_boundary (c ∷ cs)

abbrev in_header : Option Bytes → Option Bytes
in_header none = none
in_header (some content_type) = searched content_type

-- An empty header and a missing one count alike.
unfoldable pub extract_boundary_from_content_type : Option Bytes → Bytes
unfolding match_boundary without_last_quote
extract_boundary_from_content_type content_type = named (in_header content_type)
