-- ===== src/Translator/Input/Parsers.antt =====
-- The parsers that the input of translator/input.go goes through: they are parameters of the model.
use cff_core.Base.{String, List, [], ◌∷◌, Option, none, some}
use cff_core.Value.{Value}
use cff_core.Translator.RawConfig.{RawConfig}

-- What the program reads of a parsed `url.URL`.
pub record Url : Type 0 where
  pub hostname : String
  pub port : String
  pub username : String
  -- `u.Query().Get(key)`
  pub query : String → String

pub record Parsers : Type 0 where
  -- The `DecodeString` of the four encodings of `encoding/base64`, in the order in which they are tried
  pub base64_std : String → Option String
  pub base64_raw_std : String → Option String
  pub base64_url : String → Option String
  pub base64_raw_url : String → Option String
  -- `json.Unmarshal` into `any`
  pub json : String → Option Value
  -- `url.QueryUnescape` and `url.Parse`
  pub query_unescape : String → Option String
  pub parse_url : String → Option Url
  -- `yaml.Unmarshal` into a `RawConfig`
  pub yaml : String → Option RawConfig

-- The encodings.
abbrev pub encodings : Parsers → List (String → Option String)
encodings q = q.base64_std ∷ q.base64_raw_std ∷ q.base64_url ∷ q.base64_raw_url ∷ []

-- The loop of `base64Decode`.
unfoldable pub first_decoded : List (String → Option String) → String → Option String
first_decoded [] s = none
first_decoded (decode ∷ decoders) s =
    let rest = first_decoded decoders s in elim (decode s) [ some text ↦ some text | none ↦ rest ]
