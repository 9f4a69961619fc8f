-- ===== src/Catalog/Served.antt =====
-- app/gateway.py, `create_provider`, `edit_provider` and `save_route`: every route can be served.
use opsark_admin.Common.{
  ℕ, ◌≡◌, refl, ap, Bool, true, Option, none, some, [], ◌∷◌, ◌⊎◌, inl, inr, arith, ◌==◌,
  if◌then◌else◌, Bool-cases, Option-cases, ◌∙◌,
}
use mathlib.Core.Option.{map}
use opsark_admin.Common.Table.{Table, get, update, insert, get-update_self, get-update, get-insert}
use opsark_admin.Errors.{Result, ok, err, value_error}
use opsark_admin.Exec.{◌>>=◌}
use opsark_admin.Parameters.{ModelParameters}
use opsark_admin.Parameters.Presets.{on_ok}
use opsark_admin.Catalog.{
  Provider, ModelRoute, Catalog, ProviderInput, RouteInput, write_providers, write_routes,
  add_provider, provider_of, create_provider, route_parameters, as_parameter_error, check_routes,
  key_or, edit_provider, given, route_values, put_route, save_row, create_route, update_route,
}

-- The route has a provider, whose address takes the route's protocol, and whose parameters go
-- together with the route's.
abbrev pub CanServe : ModelRoute → Table Provider → Type 0
CanServe route providers =
    (provider : Provider) × (get route.provider_id providers ≡ some provider)
    × ((parameters : ModelParameters) × (route_parameters provider.base_url
            provider.parameter_defaults route
          ≡ ok parameters))

pub record IsServed (db : Catalog) : Type 0 where
  pub routes :
      (id : ℕ) (route : ModelRoute) → get id db.routes ≡ some route → CanServe route db.providers

checked :
    (r : Result ModelParameters)
    → as_parameter_error r ≡ ok tt
    → (parameters : ModelParameters) × (r ≡ ok parameters)
unfolding as_parameter_error
checked (ok parameters) h = (parameters, refl)
checked (err value_error) h = absurd (ground arith)
checked (err e) h = absurd (ground arith)

step :
    (own : Bool) (r rest : Result (Unit {0}))
    → (if own then on_ok r (λ x. rest) else rest) ≡ ok tt
    → (rest ≡ ok tt) × (own ≡ true → r ≡ ok tt)
unfolding on_ok
step own r rest done = ground arith

same_route :
    (first route : ModelRoute)
    → ◌≡◌ {A = Option ModelRoute} (some first) (some route)
    → first ≡ route
same_route first route e = cc

-- The loop has seen every route of the provider.
check_routes_lem :
    (provider_id : ℕ) (body : ProviderInput) (routes : Table ModelRoute) (id : ℕ)
    (route : ModelRoute)
    → check_routes provider_id body routes ≡ ok tt
    → get id routes ≡ some route
    → (route.provider_id == provider_id) ≡ true
    → as_parameter_error (route_parameters body.base_url body.parameter_defaults route) ≡ ok tt
unfolding check_routes
check_routes_lem provider_id body [] id route done there own = absurd (ground arith)
check_routes_lem provider_id body ((i, first) ∷ routes) id route done there own =
    let (rest, mine) =
      step (first.provider_id == provider_id)
        (as_parameter_error (route_parameters body.base_url body.parameter_defaults first))
        (check_routes provider_id body routes) done in
    elim (Bool-cases (id == i)) [
      | inl hit ↦
          let same = same_route first route (rw hit at there) in
          rw (← same) (mine (rw (← same) at own))
      | inr miss ↦ check_routes_lem provider_id body routes id route rest (rw miss at there) own
    ]

edit_provider_cases :
    (id : ℕ) (body : ProviderInput) (db : Catalog)
    → ((edit_provider id body db).1 ≡ db)
      ⊎ ((provider : Provider) × (get id db.providers ≡ some provider)
          × (check_routes id body db.routes ≡ ok tt)
          × ((edit_provider id body db).1 ≡ record db {
            providers =
                update id
                  (λ old. provider_of body (key_or body.api_key old.encrypted_key))
                  db.providers;
          }))
unfolding edit_provider write_providers ◌>>=◌
edit_provider_cases id body db = ground arith

get-update_at :
    (k j : ℕ) (f : Provider → Provider) (t : Table Provider) (p : Provider)
    → (j == k) ≡ true
    → get k t ≡ some p
    → get j (update k f t) ≡ some (f p)
get-update_at k j f t p same there =
    let e : j ≡ k = ground (arith, same) in rw e (get-update_self k f t ∙ ap (map f) there)

-- From a catalogue whose routes can all be served, an edit of a provider leads to such a one,
-- whether it is accepted or refused: a new address or new defaults that one of the provider's
-- routes does not go with are refused.
pub edit_provider-IsServed :
    (id : ℕ) (body : ProviderInput) (db : Catalog)
    → IsServed db
    → IsServed (edit_provider id body db).1
unfolding provider_of
edit_provider-IsServed id body db h = elim (edit_provider_cases id body db) [
  | inl same ↦ rw same h
  | inr (provider, there, fine, written) ↦ rw written (record {
    routes = λ j route found. elim (Bool-cases (route.provider_id == id)) [
      | inl own ↦
          let (parameters, good) =
            checked _ (check_routes_lem id body db.routes j route fine found own) in
          (
            provider_of body (key_or body.api_key provider.encrypted_key),
            get-update_at id route.provider_id _ db.providers provider own there,
            (parameters, good),
          )
      | inr other ↦
          let (p, stays, good) = h.routes j route found in (p, rw get-update (ground arith), good)
    ];
  })
]

create_provider_cases :
    (id : ℕ) (body : ProviderInput) (db : Catalog)
    → ((create_provider id body db).1 ≡ db)
      ⊎ ((get id db.providers ≡ none)
          × ((create_provider id body db).1 ≡ record db {
            providers = insert id (provider_of body (given body.api_key 0)) db.providers;
          }))
unfolding create_provider add_provider write_providers ◌>>=◌
create_provider_cases id body db = ground arith

-- A new provider leaves every route as it can be served.
pub create_provider-IsServed :
    (id : ℕ) (body : ProviderInput) (db : Catalog)
    → IsServed db
    → IsServed (create_provider id body db).1
create_provider-IsServed id body db h = elim (create_provider_cases id body db) [
  | inl same ↦ rw same h
  | inr (free, written) ↦ rw written (record {
    routes = λ j route found.
        let (p, stays, good) = h.routes j route found in
        (p, rw (get-insert id route.provider_id _ db.providers free) (ground arith), good);
  })
]

save_row_cases :
    (id : ℕ) (row : Option ModelRoute) (body : RouteInput) (db : Catalog)
    → ((save_row id row body db).1 ≡ db)
      ⊎ ((provider : Provider) × (get body.provider_id db.providers ≡ some provider)
          × (as_parameter_error (
                route_parameters provider.base_url provider.parameter_defaults
                  (route_values body row))
              ≡ ok tt)
          × ((save_row id row body db).1 ≡ (put_route row id (route_values body row) db).1))
unfolding save_row ◌>>=◌
save_row_cases id row body db = ground arith

replaced_route :
    (o : Option ModelRoute) (new route : ModelRoute) → map (λ old. new) o ≡ some route → new ≡ route
replaced_route none new route e = absurd (ground arith)
replaced_route (some old) new route e = same_route new route e

module _ (id : ℕ) (new : ModelRoute) (db : Catalog) (h : IsServed db)
    (good : CanServe new db.providers) where
  inserted-IsServed :
      get id db.routes ≡ none → IsServed (record db { routes = insert id new db.routes })
  inserted-IsServed free = record {
    routes = λ j route found. elim (Bool-cases (id == j)) [
      | inl hit ↦
          rw (← same_route new route (rw (get-insert id j new db.routes free, hit) at found)) good
      | inr miss ↦ h.routes j route (rw (get-insert id j new db.routes free, miss) at found)
    ];
  }

  updated-IsServed : IsServed (record db { routes = update id (λ old. new) db.routes })
  updated-IsServed = record {
    routes = λ j route found. elim (Bool-cases (id == j)) [
      | inl hit ↦
          rw (← replaced_route (get j db.routes) new route (rw (get-update, hit) at found)) good
      | inr miss ↦ h.routes j route (rw (get-update, miss) at found)
    ];
  }

put_route-IsServed :
    (row : Option ModelRoute) (id : ℕ) (new : ModelRoute) (db : Catalog)
    → IsServed db
    → CanServe new db.providers
    → IsServed (put_route row id new db).1
unfolding put_route write_routes ◌>>=◌
put_route-IsServed none id new db h good = elim (Option-cases (get id db.routes)) [
  | inl free ↦ rw free (inserted-IsServed id new db h good free)
  | inr (old, taken) ↦ rw taken h
]
put_route-IsServed (some row) id new db h good = updated-IsServed id new db h good

save_row-IsServed :
    (id : ℕ) (row : Option ModelRoute) (body : RouteInput) (db : Catalog)
    → IsServed db
    → IsServed (save_row id row body db).1
unfolding route_values
save_row-IsServed id row body db h = elim (save_row_cases id row body db) [
  | inl same ↦ rw same h
  | inr (provider, there, fine, written) ↦
      let (parameters, good) = checked _ fine in
      rw written (
        put_route-IsServed row id (route_values body row) db h
          (provider, there, (parameters, good)))
]

-- From a catalogue whose routes can all be served, a new route leads to such a one, whether it is
-- accepted or refused.
pub create_route-IsServed :
    (id : ℕ) (body : RouteInput) (db : Catalog) → IsServed db → IsServed (create_route id body db).1
unfolding create_route
create_route-IsServed id body db h = save_row-IsServed id none body db h

-- The same holds for an edit of a route.
pub update_route-IsServed :
    (id : ℕ) (body : RouteInput) (db : Catalog) → IsServed db → IsServed (update_route id body db).1
unfolding update_route ◌>>=◌
update_route-IsServed id body db h = elim (Option-cases (get id db.routes)) [
  | inl missing ↦ rw missing h
  | inr (row, there) ↦ rw there (save_row-IsServed id (some row) body db h)
]
