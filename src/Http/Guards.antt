-- ===== src/Http/Guards.antt =====
-- Which requests may change anything (src/agent.cpp, `httpRequest`).
use cppagent.Base.{
  ◌≡◌, refl, true, false, ◌||◌, Option, none, some, [], ◌∷◌, ◌++◌, Text, member, codes, is_empty,
  text_eq, text_eq_iff, if◌then◌else◌, arith, ◌⊎◌, inl, inr, Bool-cases, lookup, is_some,
}
use cppagent.Http.{
  Request, Server, Route, refuse, file, get_assets, put_asset, get, put, guard, route, route_path,
  path_of, device_and_call, first_part,
}

-- The client may write: writing is enabled, the method is one that writes, and the host is allowed
-- where hosts are listed.
abbrev pub MayWrite : Request → Server → Type 0
MayWrite r s =
    (s.put_enabled ≡ true)
    × ((r.request_type ≡ codes "PUT")
        ⊎ ((r.request_type ≡ codes "POST") ⊎ (r.request_type ≡ codes "DELETE")))
    × ((is_empty s.put_allowed_hosts ≡ true) ⊎ (member r.foreign_ip s.put_allowed_hosts ≡ true))

-- A route to a handler that reads is for a GET or a writer, one to a handler that writes for a writer.
abbrev pub IsPermitted : Request → Server → Option Route → Type 0
IsPermitted r s none = (r.request_type ≡ codes "GET") ⊎ MayWrite r s
IsPermitted r s (some (refuse code message)) = Unit
IsPermitted r s (some (file path)) = (r.request_type ≡ codes "GET") ⊎ MayWrite r s
IsPermitted r s (some (get_assets list)) = r.request_type ≡ codes "GET"
IsPermitted r s (some (get path call device)) = r.request_type ≡ codes "GET"
IsPermitted r s (some (put_asset cmd id)) = MayWrite r s × (cmd ≡ r.request_type)
IsPermitted r s (some (put call device)) = MayWrite r s

-- What the guard lets through.
guard_lem :
    (r : Request) (s : Server)
    → guard r s ≡ none
    → ((text_eq r.request_type (codes "GET") ≡ true) × (r.request_type ≡ codes "GET"))
      ⊎ ((text_eq r.request_type (codes "GET") ≡ false) × MayWrite r s)
unfolding guard
guard_lem r s h = ground (
  arith,
  text_eq_iff r.request_type (codes "GET"),
  text_eq_iff r.request_type (codes "PUT"),
  text_eq_iff r.request_type (codes "POST"),
  text_eq_iff r.request_type (codes "DELETE"),
)

guard-refuse :
    (r : Request) (s : Server) (x : Route)
    → guard r s ≡ some x
    → (code : Text) × (message : Text) × (x ≡ refuse code message)
unfolding guard
guard-refuse r s (refuse code message) h = (code, message, refl)
guard-refuse r s (file path) h = absurd (ground arith)
guard-refuse r s (get_assets list) h = absurd (ground arith)
guard-refuse r s (put_asset cmd id) h = absurd (ground arith)
guard-refuse r s (get path call device) h = absurd (ground arith)
guard-refuse r s (put call device) h = absurd (ground arith)

module _ (r : Request) (s : Server) where
  -- A request that the guard lets through.
  abbrev Passed : Type 0
  Passed =
      ((text_eq r.request_type (codes "GET") ≡ true) × (r.request_type ≡ codes "GET"))
      ⊎ ((text_eq r.request_type (codes "GET") ≡ false) × MayWrite r s)

  either : Passed → (r.request_type ≡ codes "GET") ⊎ MayWrite r s
  either (inl h) = inl h.1
  either (inr h) = inr h.1

  call-IsPermitted :
      (path : Text) (x : Option (Text × Text))
      → Passed
      → IsPermitted r s (
          some (elim x [
            | none ↦ refuse (codes "UNSUPPORTED") (codes "The following path is invalid: " ++ path)
            | some (device, call) ↦
                if text_eq r.request_type (codes "GET")
                then get path call device
                else put call device
          ]))
  call-IsPermitted path none h = tt
  call-IsPermitted path (some (device, call)) (inl h) = rw (h.0, IsPermitted) h.1
  call-IsPermitted path (some (device, call)) (inr h) = rw (h.0, IsPermitted) h.1

  route_path-IsPermitted :
      (path rest : Text) → Passed → IsPermitted r s (some (route_path r path rest))
  unfolding route_path
  route_path-IsPermitted path rest h =
      elim (Bool-cases (
        text_eq (first_part rest).0 (codes "assets")
        || text_eq (first_part rest).0 (codes "asset"))) [
          | inr n ↦ rw n (call-IsPermitted path (device_and_call rest) h)
          | inl a ↦ rw a (assets h)
        ]
    where
      assets :
          Passed
          → IsPermitted r s (
              some (
                if text_eq r.request_type (codes "GET")
                then get_assets (first_part rest).1
                else put_asset r.request_type (first_part rest).1))
      assets (inl k) = rw (k.0, IsPermitted) k.1
      assets (inr k) = rw (k.0, IsPermitted) (k.1, refl)

  path-IsPermitted :
      (path : Text)
      → Passed
      → IsPermitted r s (elim path [ [] ↦ none | c ∷ rest ↦ some (route_path r (c ∷ rest) rest) ])
  path-IsPermitted [] h = either h
  path-IsPermitted (c ∷ rest) h = route_path-IsPermitted (c ∷ rest) rest h

-- Every route of `httpRequest` is permitted: a handler that only reads is chosen for a GET, one that
-- writes observations, commands or assets only where writing is enabled, for a PUT, a POST or a DELETE,
-- from a host that is listed, if any is, and a file for either; all other requests are refused.
pub route-IsPermitted : (r : Request) (s : Server) → IsPermitted r s (route r s)
unfolding route
route-IsPermitted r s = go (guard r s) refl
  where
    go : (g : Option Route) → guard r s ≡ g → IsPermitted r s (route r s)
    go (some x) e = let (code, message, d) = guard-refuse r s x e in rw (e, route, d) tt
    go none e =
        let h : Passed r s = guard_lem r s e in
        rw (e, route)
          (elim (Bool-cases (is_some (lookup (path_of r.path) s.file_map))) [
            | inl f ↦ rw f (either r s h)
            | inr f ↦ rw f (path-IsPermitted r s (path_of r.path) h)
          ])
