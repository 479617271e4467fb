-- ===== src/Router/Laws.antt =====
-- The table as a function from unit ids.
use modbus_gateway.Base.{
  ℕ, ◌≤◌, ◌<◌, ◌≡◌, none, some, length, get_elem?, set, if◌then◌else◌, arith, ◌==◌,
  length-replicate, get_elem?-replicate, get_elem?_past, length-set, get_elem?-set_self,
  get_elem?-set_ne, lt→ltb, ==_iff, Bool-cases, inl, inr,
}
use modbus_gateway.Router.{Router, default_router, route, set_route}

abbrev pub size : Router → ℕ
size r = length r.route_map

pub size-default_router : (limit d : ℕ) → size (default_router limit d) ≡ limit
unfolding default_router
size-default_router limit d = length-replicate limit d

pub route-default_router : (limit d u : ℕ) → u < limit → route (default_router limit d) u ≡ some d
unfolding default_router route
route-default_router limit d u h = get_elem?-replicate limit d u h

route_set :
    (u a v : ℕ) (r : Router)
    → u < size r
    → get_elem? (set r.route_map u a) v ≡ (if u == v then some a else get_elem? r.route_map v)
route_set u a v r h = elim (Bool-cases (u == v)) [
  | inl e ↦ rw (e, ← (==_iff u v).0 e) (get_elem?-set_self r.route_map u a h)
  | inr e ↦ rw e (get_elem?-set_ne r.route_map u v a (ground arith))
]

-- Every write of Set below the size of the table succeeds, keeps the size, and changes the route of
-- that unit id only.
pub set_route_lem :
    (u a : ℕ) (r : Router)
    → u < size r
    → (r' : Router) × (set_route u a r ≡ some r')
      × (size r' ≡ size r)
      × ((v : ℕ) → route r' v ≡ (if u == v then some a else route r v))
unfolding set_route route
set_route_lem u a r h = (
  record { route_map = set r.route_map u a },
  rw (lt→ltb u (size r) h),
  length-set r.route_map u a,
  λ v. route_set u a v r h,
)

-- Exactly the unit ids below the size have an entry; the others are read past the end.
pub route-eq-none : (r : Router) (u : ℕ) → size r ≤ u → route r u ≡ none
unfolding route
route-eq-none r u h = get_elem?_past r.route_map u h
