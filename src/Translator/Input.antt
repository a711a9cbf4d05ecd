-- ===== src/Translator/Input.antt =====
-- translator/input.go, translator/detect.go and `ConvertWithMeta` of translator/translator.go: the text of a
-- subscription, its format, and the proxies of a list of URIs.
pub mod Number
pub mod Parsers
pub mod Uris
pub mod Subscription
pub mod Config
pub mod Parsed
