-- ===== src/EditDistance/Tests.antt =====
-- Runs of the edit distance and the suggestion, and the theorems at concrete inputs.
use aart.Base.{
  is_inherited, ◌+◌, ◌≤◌, ◌<◌, ◌≡◌, refl, ◌↔◌, none, some, List, [], ◌∷◌, Text, codes, All, Member,
}
use aart.EditDistance.{
  levenshtein_distance, max_distance_of, alias_of, compute_did_you_mean, suggested,
  inherited_member,
}
use aart.EditDistance.Spec.{IsDistance}
use aart.EditDistance.Laws.{levenshtein_distance-IsDistance, levenshtein_distance_metric}
use aart.EditDistance.Suggest.{compute_did_you_mean_closest, compute_did_you_mean-none}

kitten : levenshtein_distance (codes "kitten") (codes "sitting") ≡ 3
unfolding levenshtein_distance
kitten = refl

abbrev catalog : List Text
catalog = codes "browser.goto" ∷ codes "http.request" ∷ codes "browser.click" ∷ []

goto :
    compute_did_you_mean (codes "browser.got") catalog [] none
    ≡ some (suggested (codes "browser.goto"))
unfolding compute_did_you_mean levenshtein_distance is_inherited
goto = refl

-- A name of an inherited member is suggested as that member.
constructor_hit :
    compute_did_you_mean (codes "constructor") catalog [] none
    ≡ some (inherited_member (codes "constructor"))
unfolding compute_did_you_mean levenshtein_distance is_inherited
constructor_hit = refl

nothing : compute_did_you_mean (codes "data") catalog [] none ≡ none
unfolding compute_did_you_mean levenshtein_distance is_inherited
nothing = refl

levenshtein_distance-IsDistance_example :
    IsDistance
      (levenshtein_distance (codes "kitten") (codes "sitting"))
      (codes "kitten")
      (codes "sitting")
levenshtein_distance-IsDistance_example =
    levenshtein_distance-IsDistance (codes "kitten") (codes "sitting")

levenshtein_distance_metric_example :
    ((levenshtein_distance (codes "ab") (codes "ba") ≡ 0) ↔ (codes "ab" ≡ codes "ba"))
    × (levenshtein_distance (codes "ab") (codes "ba")
        ≡ levenshtein_distance (codes "ba") (codes "ab"))
    × (levenshtein_distance (codes "ab") (codes "c")
        ≤ levenshtein_distance (codes "ab") (codes "ba")
          + levenshtein_distance (codes "ba") (codes "c"))
levenshtein_distance_metric_example =
    levenshtein_distance_metric (codes "ab") (codes "ba") (codes "c")

no_alias_goto : alias_of (codes "browser.got") [] ≡ none
unfolding is_inherited
no_alias_goto = refl

no_alias_data : alias_of (codes "data") [] ≡ none
unfolding is_inherited
no_alias_data = refl

compute_did_you_mean_closest_example :
    Member (codes "browser.goto") catalog
    × (levenshtein_distance (codes "browser.got") (codes "browser.goto")
        ≤ max_distance_of none (codes "browser.got"))
    × All
        (λ e.
          levenshtein_distance (codes "browser.got") (codes "browser.goto")
          ≤ levenshtein_distance (codes "browser.got") e)
        catalog
compute_did_you_mean_closest_example =
    compute_did_you_mean_closest (codes "browser.got") catalog [] none (codes "browser.goto")
      no_alias_goto goto

compute_did_you_mean-none_example :
    (compute_did_you_mean (codes "data") catalog [] none ≡ none)
    ↔ All (λ e. max_distance_of none (codes "data") < levenshtein_distance (codes "data") e) catalog
compute_did_you_mean-none_example =
    compute_did_you_mean-none (codes "data") catalog [] none no_alias_data
