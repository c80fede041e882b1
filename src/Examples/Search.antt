-- ===== src/Examples/Search.antt =====
-- Two machines in the index, bffhd/resources/search.rs.
use fabaccess_server.Prelude.{List, [], ◌∷◌, Str, codes}
use fabaccess_server.Resources.Search.{Index}

-- A resource is its id here.
abbrev id_of : Str → Str
id_of r = r

abbrev machines : List Str
machines = codes "mill" ∷ codes "saw" ∷ []

abbrev index : Index id_of
index = (codes "saw", codes "saw") ∷ (codes "mill", codes "mill") ∷ []
