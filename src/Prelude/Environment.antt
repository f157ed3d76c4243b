-- ===== src/Prelude/Environment.antt =====
-- A `HashMap<String, String>` of environment variables, as an association list.
use Prim.Native.String.{String}
use mathlib.Core.Path.{◌≡◌, refl}
use mathlib.Core.Option.{Option, none, some}
use mathlib.Core.List.{List, [], ◌∷◌}
use native.Mathlib.Omega.{arith}
use rattler_sandbox.Prelude.Tests.{if◌then◌else◌, ◌==◌, string_eq}

abbrev pub Env : Type 0
Env = List (String × String)

unfoldable pub lookup : String → Env → Option String
lookup k [] = none
lookup k ((j, v) ∷ env) = if j == k then some v else lookup k env

unfoldable pub insert : String → String → Env → Env
insert k v [] = (k, v) ∷ []
insert k v ((j, x) ∷ env) = if j == k then (k, v) ∷ env else (j, x) ∷ insert k v env

pub lookup-insert :
    (k j v : String) (env : Env)
    → lookup j (insert k v env) ≡ (if k == j then some v else lookup j env)
unfolding lookup insert
lookup-insert k j v [] = refl
lookup-insert k j v ((i, x) ∷ env) = ground (arith, lookup-insert k j v env)
