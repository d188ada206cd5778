-- ===== src/Base/Platform.antt =====
-- What the program takes from Go's runtime and standard library that is a parameter here: the
-- Unicode tables, the package encoding/json, and the order in which a loop goes through a map.
use mathlib.Core.List.{Permᴰ}
use mathlib.Core.Option.{Option}
use Prim.Native.String.{String}
use prisma_go.Base.Maps.{Dict}
use prisma_go.Base.Texts.{Unicode}

pub record Runtime : Type 1 where
  pub unicode : Unicode
  -- `json.Unmarshal` into an `interface{}` and `json.Marshal`, with `none` for an error.
  pub Json : Type 0
  pub unmarshal : String → Option Json
  pub marshal : Json → Option String
  -- The entries of a map in the order in which a loop goes through them. It may differ from loop
  -- to loop: the text tells them apart.
  pub visit : {V : Type 0} → String → Dict V → Dict V

-- A loop over a map goes through each entry once.
pub record IsRuntime (r : Runtime) : Type 1 where
  pub visits : {V : Type 0} (loop : String) (m : Dict V) → Permᴰ (r.visit loop m) m
