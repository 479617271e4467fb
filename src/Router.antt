-- ===== src/Router.antt =====
-- transport/include/transport/router.h and transport/router.cpp: the table from unit ids to actors.
pub mod Laws
use modbus_gateway.Base.{
  ℕ, Bool, true, false, Option, none, some, List, length, ltb, get_elem?, set, replicate,
  if◌then◌else◌,
}

-- `limit` entries, where `limit` is the largest unit id: there is none for the largest id itself.
pub record Router : Type 0 where
  pub route_map : List ℕ

-- Router(defaultId)
unfoldable pub default_router : ℕ → ℕ → Router
default_router limit default_id = record { route_map = replicate limit default_id }

-- `none` is a read past the end of the array, which is undefined.
unfoldable pub route : Router → ℕ → Option ℕ
route r unit_id = get_elem? r.route_map unit_id

-- `none` is a write past the end.
unfoldable pub set_route : ℕ → ℕ → Router → Option Router
set_route unit_id actor_id r =
    if ltb unit_id (length r.route_map)
    then some (record { route_map = set r.route_map unit_id actor_id })
    else none
