-- ===== src/Duration/Tests.antt =====
-- Runs of the duration parser.
use aart.Base.{◌≡◌, refl, none, some, codes}
use aart.Expr.{span, number_from}
use aart.Duration.{parse_duration_ms}

week : parse_duration_ms (codes "7d") ≡ some 604800000
unfolding parse_duration_ms span number_from
week = refl

spaced : parse_duration_ms (codes " 30  ms ") ≡ some 30
unfolding parse_duration_ms span number_from
spaced = refl

no_unit : parse_duration_ms (codes "30") ≡ none
unfolding parse_duration_ms span number_from
no_unit = refl
