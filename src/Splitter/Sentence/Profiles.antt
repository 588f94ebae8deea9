-- ===== src/Splitter/Sentence/Profiles.antt =====
-- src/astra_indexator/splitter/sentence.py: the profiles of sentence boundaries and their choice by the
-- language hint. Sets are lists.
use astra_indexator.Prelude.{
  ℕ, Bool, ◌||◌, List, [], ◌∷◌, ◌++◌, map, String, any, ◌==◌, if◌then◌else◌,
}
use astra_indexator.Text.{Codes, CaseTable, codes, codes_eq, contains, is_empty, lower}
use astra_indexator.Splitter.Fragments.{before_dash}

pub record SentenceBoundaryProfile : Type 0 where
  pub profile_id : String
  pub languages : List String
  pub abbreviations : List String
  pub always_nonterminal : List String
  pub extra_terminal_chars : List ℕ

abbrev pub en_abbreviations : List String
en_abbreviations =
    "mr." ∷ "mrs." ∷ "ms." ∷ "dr." ∷ "prof." ∷ "sr." ∷ "jr." ∷ "etc." ∷ "e.g." ∷ "i.e." ∷ "vs."
    ∷ "fig." ∷ "no." ∷ "sec." ∷ "art." ∷ []

abbrev pub ru_abbreviations : List String
ru_abbreviations =
    "г." ∷ "гг." ∷ "т.е." ∷ "т.д." ∷ "т.п." ∷ "др." ∷ "стр." ∷ "рис." ∷ "им." ∷ "см." ∷ "напр."
    ∷ "п." ∷ "пп." ∷ "ст." ∷ "табл." ∷ "разд." ∷ []

abbrev pub kk_abbreviations : List String
kk_abbreviations = "ж." ∷ "т.б." ∷ "т.с.с." ∷ "мыс." ∷ []

abbrev pub de_abbreviations : List String
de_abbreviations =
    "dr." ∷ "prof." ∷ "hr." ∷ "fr." ∷ "bzw." ∷ "z.b." ∷ "u.a." ∷ "ziff." ∷ "abs." ∷ "art." ∷ []

abbrev pub fr_abbreviations : List String
fr_abbreviations = "m." ∷ "mme." ∷ "mlle." ∷ "dr." ∷ "pr." ∷ "art." ∷ "l’art." ∷ "etc." ∷ []

abbrev pub es_abbreviations : List String
es_abbreviations = "sr." ∷ "sra." ∷ "srta." ∷ "dr." ∷ "dra." ∷ "ud." ∷ "uds." ∷ "etc." ∷ []

abbrev pub pt_abbreviations : List String
pt_abbreviations = "sr." ∷ "sra." ∷ "dr." ∷ "dra." ∷ "prof." ∷ "etc." ∷ []

abbrev pub it_abbreviations : List String
it_abbreviations = "dott." ∷ "dott.ssa." ∷ "sig." ∷ "sig.ra." ∷ "prof." ∷ "ecc." ∷ []

abbrev pub tr_abbreviations : List String
tr_abbreviations = "dr." ∷ "prof." ∷ "sn." ∷ "vb." ∷ "vs." ∷ []

abbrev pub always_en : List String
always_en =
    "mr." ∷ "mrs." ∷ "ms." ∷ "dr." ∷ "prof." ∷ "sr." ∷ "jr." ∷ "fig." ∷ "no." ∷ "sec." ∷ "art." ∷ []

abbrev pub always_ru : List String
always_ru =
    "г." ∷ "гг." ∷ "стр." ∷ "рис." ∷ "им." ∷ "см." ∷ "напр." ∷ "п." ∷ "пп." ∷ "ст." ∷ "табл."
    ∷ "разд." ∷ []

abbrev pub always_kk : List String
always_kk = "ж." ∷ "мыс." ∷ []

abbrev pub always_de : List String
always_de =
    "dr." ∷ "prof." ∷ "hr." ∷ "fr." ∷ "bzw." ∷ "z.b." ∷ "u.a." ∷ "ziff." ∷ "abs." ∷ "art." ∷ []

abbrev pub always_fr : List String
always_fr = "m." ∷ "mme." ∷ "mlle." ∷ "dr." ∷ "pr." ∷ "art." ∷ "l’art." ∷ []

abbrev pub always_es : List String
always_es = "sr." ∷ "sra." ∷ "srta." ∷ "dr." ∷ "dra." ∷ "ud." ∷ "uds." ∷ []

abbrev pub always_pt : List String
always_pt = "sr." ∷ "sra." ∷ "dr." ∷ "dra." ∷ "prof." ∷ []

abbrev pub always_it : List String
always_it = "dott." ∷ "dott.ssa." ∷ "sig." ∷ "sig.ra." ∷ "prof." ∷ []

abbrev pub always_tr : List String
always_tr = "dr." ∷ "prof." ∷ "sn." ∷ []

abbrev pub en_profile : SentenceBoundaryProfile
en_profile = record {
  profile_id = "sentence-en-v5";
  languages = "en" ∷ [];
  abbreviations = en_abbreviations;
  always_nonterminal = always_en;
  extra_terminal_chars = [];
}

abbrev pub ru_profile : SentenceBoundaryProfile
ru_profile = record {
  profile_id = "sentence-ru-v5";
  languages = "ru" ∷ [];
  abbreviations = ru_abbreviations;
  always_nonterminal = always_ru;
  extra_terminal_chars = [];
}

abbrev pub kk_profile : SentenceBoundaryProfile
kk_profile = record {
  profile_id = "sentence-kk-v5";
  languages = "kk" ∷ [];
  abbreviations = kk_abbreviations ++ ru_abbreviations;
  always_nonterminal = always_kk ++ always_ru;
  extra_terminal_chars = [];
}

abbrev pub de_profile : SentenceBoundaryProfile
de_profile = record {
  profile_id = "sentence-de-v2";
  languages = "de" ∷ [];
  abbreviations = de_abbreviations;
  always_nonterminal = always_de;
  extra_terminal_chars = [];
}

abbrev pub fr_profile : SentenceBoundaryProfile
fr_profile = record {
  profile_id = "sentence-fr-v1";
  languages = "fr" ∷ [];
  abbreviations = fr_abbreviations;
  always_nonterminal = always_fr;
  extra_terminal_chars = [];
}

abbrev pub es_profile : SentenceBoundaryProfile
es_profile = record {
  profile_id = "sentence-es-v1";
  languages = "es" ∷ [];
  abbreviations = es_abbreviations;
  always_nonterminal = always_es;
  extra_terminal_chars = [];
}

abbrev pub pt_profile : SentenceBoundaryProfile
pt_profile = record {
  profile_id = "sentence-pt-v1";
  languages = "pt" ∷ [];
  abbreviations = pt_abbreviations;
  always_nonterminal = always_pt;
  extra_terminal_chars = [];
}

abbrev pub it_profile : SentenceBoundaryProfile
it_profile = record {
  profile_id = "sentence-it-v1";
  languages = "it" ∷ [];
  abbreviations = it_abbreviations;
  always_nonterminal = always_it;
  extra_terminal_chars = [];
}

abbrev pub tr_profile : SentenceBoundaryProfile
tr_profile = record {
  profile_id = "sentence-tr-v1";
  languages = "tr" ∷ [];
  abbreviations = tr_abbreviations;
  always_nonterminal = always_tr;
  extra_terminal_chars = [];
}

abbrev pub el_profile : SentenceBoundaryProfile
el_profile = record {
  profile_id = "sentence-el-v1";
  languages = "el" ∷ [];
  abbreviations = [];
  always_nonterminal = [];
  extra_terminal_chars = 0x3b ∷ [];
}

abbrev pub und_profile : SentenceBoundaryProfile
und_profile = record {
  profile_id = "sentence-unicode-generic-v2";
  languages = "und" ∷ [];
  abbreviations = [];
  always_nonterminal = [];
  extra_terminal_chars = [];
}

abbrev pub mixed_profile : SentenceBoundaryProfile
mixed_profile = record {
  profile_id = "sentence-mixed-ru-kk-en-v5";
  languages = "ru" ∷ "kk" ∷ "en" ∷ [];
  abbreviations = en_abbreviations ++ (ru_abbreviations ++ kk_abbreviations);
  always_nonterminal = always_en ++ (always_ru ++ always_kk);
  extra_terminal_chars = [];
}

-- `PROFILES.get(primary, PROFILES["und"])`
abbrev pub profiles : List (String × SentenceBoundaryProfile)
profiles =
    ("en", en_profile)
    ∷ ("ru", ru_profile)
    ∷ ("kk", kk_profile)
    ∷ ("de", de_profile)
    ∷ ("fr", fr_profile)
    ∷ ("es", es_profile)
    ∷ ("pt", pt_profile)
    ∷ ("it", it_profile)
    ∷ ("tr", tr_profile)
    ∷ ("el", el_profile)
    ∷ ("und", und_profile)
    ∷ ("mixed", mixed_profile)
    ∷ []

unfoldable pub profile_of :
    Codes → List (String × SentenceBoundaryProfile) → SentenceBoundaryProfile
profile_of primary [] = und_profile
profile_of primary ((name, profile) ∷ rest) =
    let other = profile_of primary rest in if codes_eq (codes name) primary then profile else other

-- `value.replace("_", "-")`
unfoldable pub dashes : Codes → Codes
dashes s = map (λ (c : ℕ). if c == 0x5f then 0x2d else c) s

-- Does the hint name several languages?
unfoldable pub names_several : Codes → Bool
names_several value =
    contains (codes ",") value
    || (contains (codes "+") value
        || (codes_eq value (codes "mixed") || codes_eq value (codes "mul")))

-- `_primary_language`. An absent hint is an empty one.
unfoldable pub primary_language_of : CaseTable → Codes → Codes
primary_language_of t hint =
    if is_empty hint
    then codes "mixed"
    else if names_several (dashes (lower t hint))
    then codes "mixed"
    else before_dash (dashes (lower t hint))

-- `profile_for`
unfoldable pub profile_for : CaseTable → Codes → SentenceBoundaryProfile
profile_for t hint =
    if is_empty hint
    then mixed_profile
    else if names_several (dashes (lower t hint))
    then mixed_profile
    else profile_of (before_dash (dashes (lower t hint))) profiles

-- `_locale_id`
unfoldable pub locale_id : CaseTable → Codes → Codes
locale_id t hint =
    if is_empty hint
      || any (codes_eq (lower t hint)) (codes "mixed" ∷ codes "mul" ∷ codes "und" ∷ [])
    then codes "root"
    else dashes hint
