-- ===== src/Parameters/Merge.antt =====
-- app/model_parameters.py, `merge_parameters`: which output budget a merge ends up with.
use opsark_admin.Common.{ℕ, ◌≡◌, refl, true, Option, none, arith}
use opsark_admin.Parameters.{ModelParameters, no_parameters, one_budget, merge_layer, merge_layers}
use opsark_admin.Parameters.Presets.{first_set, requested}

merge_layer-one_budget :
    (result layer : ModelParameters)
    → one_budget result ≡ true
    → one_budget layer ≡ true
    → one_budget (merge_layer result layer) ≡ true
unfolding merge_layer
merge_layer-one_budget result layer h k = ground arith

requested-merge_layer :
    (result layer : ModelParameters)
    → one_budget result ≡ true
    → one_budget layer ≡ true
    → requested (merge_layer result layer) ≡ first_set (requested layer) (requested result)
unfolding merge_layer
requested-merge_layer result layer h k = ground arith

last_default :
    (a b c : Option ℕ) → first_set a (first_set b (first_set c none)) ≡ first_set a (first_set b c)
last_default a b c = ground arith

-- Where no layer sets two output budgets, the merge of the three layers does not either, so it is not
-- refused for its budgets, and its budget is that of the last layer that sets one, whatever fields
-- the layers use: overrides win over the request, and the request over the defaults.
pub merge_layers_lem :
    (defaults request overrides : ModelParameters)
    → one_budget defaults ≡ true
    → one_budget request ≡ true
    → one_budget overrides ≡ true
    → (one_budget (merge_layers defaults request overrides) ≡ true)
      × (requested (merge_layers defaults request overrides)
          ≡ first_set (requested overrides) (first_set (requested request) (requested defaults)))
merge_layers_lem defaults request overrides d r o =
    let first = merge_layer no_parameters defaults in
    let one_first = merge_layer-one_budget no_parameters defaults refl d in
    let one_second = merge_layer-one_budget first request one_first r in
    (
      merge_layer-one_budget (merge_layer first request) overrides one_second o,
      rw
          (
            requested-merge_layer (merge_layer first request) overrides one_second o,
            requested-merge_layer first request one_first r,
            requested-merge_layer no_parameters defaults refl d,
          )
          (last_default (requested overrides) (requested request) (requested defaults)),
    )
