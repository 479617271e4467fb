-- ===== src/Gateway/Routes.antt =====
-- MakeRouter: which actor each unit id is routed to.
use native.Mathlib.Nat.{mod-eq_of_lt}
use modbus_gateway.Base.{
  ℕ, zero, suc, ◌+◌, ◌<◌, ◌≡◌, refl, Bool, false, Option, none, some, List, [], ◌∷◌, ◌&&◌, ◌||◌,
  inl, inr, leb, ◌∙◌, if◌then◌else◌, All, Bool-cases, arith,
}
use modbus_gateway.Modbus.{increment}
use modbus_gateway.Router.{Router, default_router, route}
use modbus_gateway.Router.Laws.{size, size-default_router, route-default_router, set_route_lem}
use modbus_gateway.Exception.{Result, ok}
use modbus_gateway.Config.Types.{TransportConfig, UnitIdRange, MasterConfig, as_master}
use modbus_gateway.Gateway.{
  Master, fill_range, fill_ranges, fill_masters, make_router, range_fuel, is_default,
}

abbrev pub in_range : UnitIdRange → ℕ → Bool
in_range range u = leb range.begin u && leb u range.end

-- Whether one of the ranges holds the unit id.
abbrev pub claims : List UnitIdRange → ℕ → Bool
claims [] u = false
claims (range ∷ ranges) u = in_range range u || claims ranges u

-- The ranges end below the number of entries of the table.
abbrev pub Fits : ℕ → List UnitIdRange → Type 0
Fits limit = All (λ range. range.end < limit)

increment-lt : (limit u : ℕ) → u < limit → increment limit u ≡ suc u
increment-lt limit u h = mod-eq_of_lt (omega arith)

-- A run ended with a table of `limit` entries that routes as the function says.
abbrev pub Fills : ℕ → Result Router → (ℕ → Option ℕ) → Type 0
Fills limit result f =
    (r : Router) × (result ≡ ok r) × (size r ≡ limit) × ((v : ℕ) → route r v ≡ f v)

module _ (limit end id : ℕ) (end_fits : end < limit) where
  fill_range_lem :
      (fuel u : ℕ) (r : Router)
      → size r ≡ limit
      → 0 < fuel
      → suc end < u + fuel
      → Fills limit
          (fill_range limit fuel u end id r)
          (λ v. if leb u v && leb v end then some id else route r v)
  unfolding fill_range
  fill_range_lem zero u r s z f = absurd (omega arith)
  fill_range_lem (suc fuel) u r s z f = elim (Bool-cases (leb u end)) [
    | inl more ↦
        let (r₁, e₁, s₁, p₁) = set_route_lem u id r (ground arith) in
        let (r₂, e₂, s₂, p₂) =
          fill_range_lem fuel (suc u) r₁ (s₁ ∙ s) (ground arith) (omega arith) in
        (r₂, ground (arith, increment-lt limit u), s₂, λ v. ground (arith, p₁ v, p₂ v))
    | inr done ↦ (r, rw done, s, λ v. ground arith)
  ]

-- The loops that follow: each table is the one before, with the claimed unit ids overwritten.
fill_ranges_lem :
    (limit : ℕ) (ranges : List UnitIdRange) (id : ℕ) (r : Router)
    → Fits limit ranges
    → size r ≡ limit
    → Fills limit
        (fill_ranges limit ranges id r)
        (λ v. if claims ranges v then some id else route r v)
unfolding fill_ranges
fill_ranges_lem limit [] id r fits s = (r, refl, s, λ v. refl)
fill_ranges_lem limit (range ∷ ranges) id r fits s =
    let (r₁, e₁, s₁, p₁) =
      fill_range_lem limit range.end id fits.0 (range_fuel limit) range.begin r s (omega arith)
        (omega arith) in
    let (r₂, e₂, s₂, p₂) = fill_ranges_lem limit ranges id r₁ fits.1 s₁ in
    (r₂, rw e₁ e₂, s₂, λ v. ground (arith, p₁ v, p₂ v))

-- A master whose ranges fit into the table.
abbrev pub IsRoutable : {Addr : Type 0} → ℕ → Master Addr → Type 0
IsRoutable limit m = (c : MasterConfig) × (as_master m.config ≡ some c) × Fits limit c.unit_id_set

-- The ranges of a master, none of anything else.
abbrev pub ranges_of : {Addr : Type 0} → TransportConfig Addr → List UnitIdRange
ranges_of c = elim (as_master c) [ none ↦ [] | some m ↦ m.unit_id_set ]

-- The last master of the list that claims the unit id.
abbrev pub last_claimant : {Addr : Type 0} → List (Master Addr) → ℕ → Option ℕ
last_claimant [] u = none
last_claimant (m ∷ ms) u = elim (last_claimant ms u) [
  | some a ↦ some a
  | none ↦ if claims (ranges_of m.config) u then some m.actor else none
]

abbrev pub or_else : Option ℕ → Option ℕ → Option ℕ
or_else none b = b
or_else (some a) b = some a

fill_masters_lem :
    {Addr : Type 0} (limit : ℕ) (ms : List (Master Addr)) (r : Router)
    → All (IsRoutable limit) ms
    → size r ≡ limit
    → Fills limit (fill_masters limit ms r) (λ v. or_else (last_claimant ms v) (route r v))
unfolding fill_masters
fill_masters_lem limit [] r fit s = (r, refl, s, λ v. refl)
fill_masters_lem limit (m ∷ ms) r ((c, e, fits), fit) s =
    let (r₁, e₁, s₁, p₁) = fill_ranges_lem limit c.unit_id_set m.actor r fits s in
    let (r₂, e₂, s₂, p₂) = fill_masters_lem limit ms r₁ fit s₁ in
    (r₂, rw (e, e₁) e₂, s₂, λ v. ground (arith, e, p₁ v, p₂ v))

-- The first master's actor if it is the default, otherwise exchange::defaultId.
abbrev pub fallback : {Addr : Type 0} → ℕ → List (Master Addr) → ℕ
fallback default_id [] = default_id
fallback default_id (m ∷ ms) = if is_default m.config then m.actor else default_id

-- What MakeRouter promises of its result.
abbrev pub RoutesAll :
    {Addr : Type 0} → ℕ → ℕ → List (Master Addr) → Result (Option Router) → Type 0
RoutesAll limit default_id ms result =
    (r : Router) × (result ≡ ok (some r))
    × (size r ≡ limit)
    × ((u : ℕ)
        → u < limit
        → route r u ≡ or_else (last_claimant ms u) (some (fallback default_id ms)))

make_router_cases :
    {Addr : Type 0} (limit default_id : ℕ) (m : Master Addr) (ms : List (Master Addr))
    (c : MasterConfig) (ranges : List UnitIdRange)
    → c.unit_id_set ≡ ranges
    → as_master m.config ≡ some c
    → Fits limit c.unit_id_set
    → All (IsRoutable limit) ms
    → RoutesAll limit default_id (m ∷ ms) (make_router limit default_id (m ∷ ms))
unfolding make_router
make_router_cases limit default_id m ms c [] q e fits fit =
    let (r, e', s, p) =
      fill_masters_lem limit ms (default_router limit m.actor) fit
        (size-default_router limit m.actor) in
    (
      r,
      ground (arith, e, q, e'),
      s,
      λ u h. ground (arith, e, q, p u, route-default_router limit m.actor u h),
    )
make_router_cases limit default_id m ms c (x ∷ xs) q e fits fit =
    let (r, e', s, p) =
      fill_masters_lem limit (m ∷ ms) (default_router limit default_id) ((c, e, fits), fit)
        (size-default_router limit default_id) in
    (
      r,
      ground (arith, e, q, e'),
      s,
      λ u h. ground (arith, e, q, p u, route-default_router limit default_id u h),
    )

-- MakeRouter terminates without undefined behaviour for every nonempty list of masters whose ranges
-- end below the size of the table, and routes each unit id below that size to the last master of the
-- list that claims it, or else to the default master in front, or else to the default actor id.
pub make_router_lem :
    {Addr : Type 0} (limit default_id : ℕ) (m : Master Addr) (ms : List (Master Addr))
    → All (IsRoutable limit) (m ∷ ms)
    → RoutesAll limit default_id (m ∷ ms) (make_router limit default_id (m ∷ ms))
make_router_lem limit default_id m ms ((c, e, fits), fit) =
    make_router_cases limit default_id m ms c c.unit_id_set refl e fits fit
