-- ===== src/Translator/Country/Cached.antt =====
-- The cache of `DetectCountry` in translator/country.go.
use cff_core.Base.{String, List, Option, none, some, ◌≡◌, refl}
use cff_core.Outside.{Outside}
use cff_core.Translator.Country.{
  CountryCache, normalize_country_code, fill_cache, detect_country_with_fallback, detect_country,
}

module _ (o : Outside) where
  detect_country-filled :
      (answers : List (Option String)) (override : String) (cache : CountryCache)
      → normalize_country_code o override ≡ none
      → let filled = fill_cache o answers cache in
        detect_country o answers override cache ≡ (filled.0, some filled)
  unfolding detect_country
  detect_country-filled answers override cache e = rw (e, detect_country) refl

  with_fallback-filled :
      (answers : List (Option String)) (override : String) (cache : CountryCache)
      → normalize_country_code o override ≡ none
      → let filled = fill_cache o answers cache in
        detect_country_with_fallback o answers override cache ≡ (filled, some filled)
  unfolding detect_country_with_fallback
  with_fallback-filled answers override cache e = rw (e, detect_country_with_fallback) refl

  -- After a call of `DetectCountry` without a valid override, each further call of `DetectCountryWithFallback`
  -- without one gives the same code, whatever the services answer by then, and leaves the cache as it is.
  pub detect_country-cached :
      (first later : List (Option String)) (override override' : String) (cache : CountryCache)
      → normalize_country_code o override ≡ none
      → normalize_country_code o override' ≡ none
      → let (cc, cache') = detect_country o first override cache in
        let (again, cache'') = detect_country_with_fallback o later override' cache' in
        (again.0 ≡ cc) × (cache'' ≡ cache')
  unfolding fill_cache
  detect_country-cached first later override override' cache e f =
      rw
        (
          detect_country-filled first override cache e,
          with_fallback-filled later override' (some (fill_cache o first cache)) f,
        )
        (refl, refl)
