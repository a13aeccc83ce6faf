-- ===== src/Compiler/Graph/Paths.antt =====
-- Paths over the edges of a graph.
use multiverse.Base.{String}

-- A path of any length, and one of at least one edge.
pub data Reach (E : String → String → Type 0) (u : String) : String → Type 0 where
  here : Reach E u u
  step : {v w : String} → Reach E u v → E v w → Reach E u w

abbrev pub Plus : (String → String → Type 0) → String → String → Type 0
Plus E u w = (v : String) × Reach E u v × E v w

pub map-Reach :
    {E F : String → String → Type 0} {u v : String}
    → ((a b : String) → E a b → F a b)
    → Reach E u v
    → Reach F u v
map-Reach f here = here
map-Reach f (step r e) = step (map-Reach f r) (f _ _ e)

pub map-Plus :
    {E F : String → String → Type 0} {u v : String}
    → ((a b : String) → E a b → F a b)
    → Plus E u v
    → Plus F u v
map-Plus f (w, r, e) = (w, map-Reach f r, f _ _ e)
