-- ===== src/Translator/Input/Subscription.antt =====
-- translator/input.go: the test for a list of URIs, and the list behind base64.
use cff_core.Translator.Input.Parsers.{Parsers, encodings}
use cff_core.Base.{
  String, Bool, true, not, ◌&&◌, ◌||◌, List, [], ◌∷◌, Option, none, some, is_some, ◌==◌,
  if◌then◌else◌,
}
use cff_core.Base.Text.{contains, split, trim_space, has_prefix}

-- Every line that is not blank holds `://`.
unfoldable pub are_uris : List String → Bool
unfolding trim_space contains
are_uris [] = true
are_uris (line ∷ lines) =
    let text = trim_space line in (text == "" || contains text "://") && are_uris lines

-- `isProxyURIList`
unfoldable pub is_proxy_uri_list : String → Bool
unfolding trim_space split are_uris
is_proxy_uri_list data_text =
    let trimmed = trim_space data_text in not (trimmed == "") && are_uris (split trimmed 10)

module _ (q : Parsers) where
  -- `looksLikeSubscription`
  unfoldable pub looks_like_subscription : String → Bool
  unfolding trim_space contains has_prefix
  looks_like_subscription s =
      let trimmed = trim_space s in
      not (trimmed == "")
      && (contains trimmed "://"
          || ((has_prefix trimmed "{" && is_some (q.json trimmed)) || contains trimmed "proxies:"))

  -- The loop of `decodeBase64Input`.
  unfoldable pub first_subscription : List (String → Option String) → String → Option String
  unfolding looks_like_subscription
  first_subscription [] s = none
  first_subscription (decode ∷ decoders) s =
      let rest = first_subscription decoders s in
      elim (decode s) [
        | none ↦ rest
        | some text ↦ if looks_like_subscription text then some text else rest
      ]

  -- `decodeBase64Input`
  unfoldable pub decode_base64_input : String → Option String
  unfolding trim_space first_subscription
  decode_base64_input s =
      let trimmed = trim_space s in
      if trimmed == "" then none else first_subscription (encodings q) trimmed
