-- ===== src/Upstream/Models/Resolve.antt =====
-- Which model a client's name stands for.
use qoderwork2api.Common.{◌≡◌, refl, List, [], ◌∷◌, Option, none, some, arith, if◌then◌else◌, ℕ}
use qoderwork2api.Common.Eq.{Text, text_instance, ◌==◌}
use qoderwork2api.Common.Dict.{Dict, lookup, insert, lookup-insert}
use qoderwork2api.Upstream.Models.{DynamicModel, client_name, resolve_loop, resolve_model_map}

abbrev pub or_first : {A : Type 0} → Option A → Option A → Option A
or_first none o = o
or_first (some a) o = some a

abbrev pub key_of : Option DynamicModel → Option Text
key_of none = none
key_of (some m) = some m.key

module _ (lower : ℕ → ℕ) where
  -- The last model of the list with the name.
  pub last_named : Text → List DynamicModel → Option DynamicModel
  last_named name [] = none
  last_named name (m ∷ ms) =
      or_first (last_named name ms) (if client_name lower m == name then some m else none)

  -- The table of `dynamicModelsMeta` is filled by the same loop, with the model for a value.
  meta_loop : List DynamicModel → Dict Text DynamicModel → Dict Text DynamicModel
  meta_loop [] out = out
  meta_loop (m ∷ ms) out = meta_loop ms (insert (client_name lower m) m out)

  pub dynamic_models_meta : List DynamicModel → Dict Text DynamicModel
  unfolding meta_loop
  dynamic_models_meta ms = meta_loop ms []

  lookup-resolve_loop :
      (name : Text) (ms : List DynamicModel) (out : Dict Text Text)
      → lookup name (resolve_loop lower ms out)
        ≡ or_first (key_of (last_named name ms)) (lookup name out)
  unfolding resolve_loop last_named
  lookup-resolve_loop name [] out = refl
  lookup-resolve_loop name (m ∷ ms) out = ground (
    arith,
    lookup-resolve_loop name ms (insert (client_name lower m) m.key out),
    lookup-insert (client_name lower m) name m.key out,
  )

  lookup-meta_loop :
      (name : Text) (ms : List DynamicModel) (out : Dict Text DynamicModel)
      → lookup name (meta_loop ms out) ≡ or_first (last_named name ms) (lookup name out)
  unfolding meta_loop last_named
  lookup-meta_loop name [] out = refl
  lookup-meta_loop name (m ∷ ms) out = ground (
    arith,
    lookup-meta_loop name ms (insert (client_name lower m) m out),
    lookup-insert (client_name lower m) name m out,
  )

  -- A name is mapped to the key of the last model that bears it, and to nothing if no model does;
  -- the table of details that is shown beside it has that same model.
  pub resolve_model_map-last_named :
      (name : Text) (ms : List DynamicModel)
      → (lookup name (resolve_model_map lower ms) ≡ key_of (last_named name ms))
        × (lookup name (dynamic_models_meta ms) ≡ last_named name ms)
  unfolding resolve_model_map dynamic_models_meta lookup
  resolve_model_map-last_named name ms =
      ground (arith, lookup-resolve_loop name ms [], lookup-meta_loop name ms [])
