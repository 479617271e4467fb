-- ===== src/Config/TracePath.antt =====
-- config/trace_path.cpp and trace_deep.cpp: where in the configuration the reader stands.
use Prim.Native.String.{String}
use Prim.Native.String
use modbus_gateway.Base.{List, [], ◌∷◌}

-- The vector of keys; its back is the head of the list.
abbrev pub TracePath : Type 0
TracePath = List String

abbrev pub push : String → TracePath → TracePath
push s path = s ∷ path

abbrev pub pop : TracePath → TracePath
pop [] = []
pop (s ∷ path) = path

-- The keys from the front, with a dot between two.
unfoldable pub get_path : TracePath → String
get_path [] = ""
get_path (s ∷ []) = s
get_path (s ∷ path) = String.◌++◌ (get_path path) (String.◌++◌ "." s)
