-- ===== src/Bkc/Catalog.antt =====
-- The lookups of internal/bkc/catalog.go over a catalog, which is an argument: the entries
-- themselves are data. The copies that a lookup hands out are values here.
use yokai.Prelude.{String, ◌==◌, Option, none, some, List, [], ◌∷◌, if◌then◌else◌, trim_space}
use yokai.Bkc.Types.{Config}

find_id : String → List Config → Option Config
find_id id [] = none
find_id id (cfg ∷ rest) = if cfg.id == id then some cfg else find_id id rest

unfoldable pub lookup_id : List Config → String → Option Config
unfolding find_id
lookup_id catalog id = find_id (trim_space id) catalog
