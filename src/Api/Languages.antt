-- ===== src/Api/Languages.antt =====
-- app/api/v1/translate.py: the languages and `normalize_language`.
pub mod Normalize
use unitra_service_api.Common.{
  ℕ, Bool, true, false, Option, none, some, List, [], ◌∷◌, ◌++◌, map, length, if◌then◌else◌,
}
use unitra_service_api.Common.Text.{Text, codes, text_eq}
use unitra_service_api.Common.Str.{Lowering, strip}
use unitra_service_api.Errors.{AppException}
use unitra_service_api.Errors.Handlers.{Raised}
use unitra_service_api.Api.Action.{Outcome, returned, raised}

-- `PRIORITY_LANGUAGES`
abbrev pub priority_languages : List (Text × Text)
priority_languages =
    (codes "en", codes "English")
    ∷ (codes "zh", codes "Chinese (Simplified)")
    ∷ (codes "ja", codes "Japanese")
    ∷ (codes "ko", codes "Korean")
    ∷ (codes "es", codes "Spanish")
    ∷ (codes "fr", codes "French")
    ∷ (codes "de", codes "German")
    ∷ (codes "pt", codes "Portuguese")
    ∷ (codes "ru", codes "Russian")
    ∷ (codes "ar", codes "Arabic")
    ∷ []

-- `EXTENDED_LANGUAGES`
abbrev pub extended_languages : List (Text × Text)
extended_languages =
    (codes "it", codes "Italian")
    ∷ (codes "nl", codes "Dutch")
    ∷ (codes "pl", codes "Polish")
    ∷ (codes "tr", codes "Turkish")
    ∷ (codes "vi", codes "Vietnamese")
    ∷ (codes "th", codes "Thai")
    ∷ (codes "id", codes "Indonesian")
    ∷ (codes "ms", codes "Malay")
    ∷ (codes "hi", codes "Hindi")
    ∷ (codes "bn", codes "Bengali")
    ∷ (codes "ta", codes "Tamil")
    ∷ (codes "te", codes "Telugu")
    ∷ (codes "uk", codes "Ukrainian")
    ∷ (codes "cs", codes "Czech")
    ∷ (codes "ro", codes "Romanian")
    ∷ (codes "hu", codes "Hungarian")
    ∷ (codes "el", codes "Greek")
    ∷ (codes "he", codes "Hebrew")
    ∷ (codes "sv", codes "Swedish")
    ∷ (codes "da", codes "Danish")
    ∷ (codes "fi", codes "Finnish")
    ∷ (codes "no", codes "Norwegian")
    ∷ []

-- `SUPPORTED_LANGUAGES`; no code stands in both of the dicts that it joins.
abbrev pub supported_languages : List (Text × Text)
supported_languages = priority_languages ++ extended_languages

-- `LANGUAGE_ALIASES`
abbrev pub language_aliases : List (Text × Text)
language_aliases =
    (codes "zh-cn", codes "zh")
    ∷ (codes "zh-hans", codes "zh")
    ∷ (codes "zh-tw", codes "zh")
    ∷ (codes "zh-hant", codes "zh")
    ∷ (codes "pt-br", codes "pt")
    ∷ (codes "pt-pt", codes "pt")
    ∷ []

unfoldable pub lookup : Text → List (Text × Text) → Option Text
lookup key [] = none
lookup key ((k, v) ∷ d) = let rest = lookup key d in if text_eq k key then some v else rest

-- `key in d`
unfoldable pub contains : Text → List (Text × Text) → Bool
unfolding lookup
contains key d = elim (lookup key d) [ none ↦ false | some _ ↦ true ]

unfoldable pub resolve_alias : Text → Text
unfolding lookup
resolve_alias code = elim (lookup code language_aliases) [ none ↦ code | some known ↦ known ]

unfoldable pub normalize_language : Lowering → Text → Outcome Text
unfolding resolve_alias contains
normalize_language L code =
    let normalized = resolve_alias (strip (L.lower code)) in
    if contains normalized supported_languages
    then returned normalized
    else raised (Raised.app (AppException.invalid_language code))

pub record LanguageInfo : Type 0 where
  pub code : Text
  pub name : Text
  pub priority : Bool

pub record LanguagesResponse : Type 0 where
  pub priority_languages : List LanguageInfo
  pub extended_languages : List LanguageInfo
  pub total_supported : ℕ

abbrev language_info : Bool → Text × Text → LanguageInfo
language_info priority (code, name) = record { code = code; name = name; priority = priority }

unfoldable pub list_languages : LanguagesResponse
list_languages = record {
  priority_languages = map (language_info true) priority_languages;
  extended_languages = map (language_info false) extended_languages;
  total_supported = length supported_languages;
}
