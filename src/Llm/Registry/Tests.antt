-- ===== src/Llm/Registry/Tests.antt =====
-- The registry of one chain and one further model.
use holahost.Base.{◌≡◌, String, false, List, [], ◌∷◌, refl}
use holahost.Base.Dict.{Dict, get}
use holahost.Llm.Entities.{Model}
use holahost.Llm.Registry.{enabled, init, resolve}
use holahost.Llm.Registry.Enabled.{resolve-init}
use holahost.Llm.Generate.Samples.{sonnet, haiku, backup}

-- The chain's second model is of a provider that is switched off.
abbrev off : Model
off = record haiku { provider = record backup { enabled = false } }

abbrev chains : Dict String (List Model)
chains = ("default", sonnet ∷ off ∷ []) ∷ []

resolve_runs :
    resolve "default" (init chains (("sonnet", sonnet) ∷ []) []) ≡ enabled (sonnet ∷ off ∷ [])
unfolding get
resolve_runs = resolve-init chains (("sonnet", sonnet) ∷ []) [] "default" (refl, tt)
