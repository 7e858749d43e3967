-- ===== src/Citations/Tests.antt =====
-- Runs of the citation code on the inputs of internal/chat/chat_test.go, and the theorems at inputs.
use ragline.Base.{◌≡◌, refl, [], ◌∷◌, Bytes, codes}
use ragline.Citations.{segments, atoi, parse_citations, strip_unknown_markers}
use ragline.Citations.Parse.{cited, Sorted, parse_citations-Sorted}
use ragline.Citations.Strip.{is_plain, parse-strip}
use ragline.Citations.Nested.{nested, nested_marker_survives}

separates_valid_from_invented :
    parse_citations (codes "Keys last 24 hours [2]. Refunds [1][2]. Also see [9].") 3
    ≡ (1 ∷ 2 ∷ [], 9 ∷ [])
unfolding parse_citations
separates_valid_from_invented = refl

accepts_grouped_markers :
    parse_citations (codes "amount [1, 2]. Also [3 , 4].") 4 ≡ (1 ∷ 2 ∷ 3 ∷ 4 ∷ [], [])
unfolding parse_citations
accepts_grouped_markers = refl

ignores_other_brackets :
    parse_citations (codes "RFC [1234], note [see below] and [1].") 2 ≡ (1 ∷ [], [])
unfolding parse_citations
ignores_other_brackets = refl

rewrites_groups :
    strip_unknown_markers (codes "Supported [1, 9] and [8].") (8 ∷ 9 ∷ [])
    ≡ codes "Supported [1] and ."
unfolding strip_unknown_markers
rewrites_groups = refl

parse_citations-Sorted_example :
    Sorted 3 (cited (segments (codes "a [2], [9, 1]"))) (parse_citations (codes "a [2], [9, 1]") 3)
parse_citations-Sorted_example = parse_citations-Sorted (codes "a [2], [9, 1]") 3

abbrev plain_answer : Bytes
plain_answer = codes "see [below]: [2, 9] [1234] [7]"

parse-strip_example :
    parse_citations (strip_unknown_markers plain_answer (parse_citations plain_answer 3).1) 3
    ≡ ((parse_citations plain_answer 3).0, [])
unfolding segments is_plain
parse-strip_example = parse-strip plain_answer 3 refl

nested_marker_survives_example :
    (parse_citations (nested (codes "7") (codes "12")) 5 ≡ ([], 7 ∷ []))
    × (strip_unknown_markers (nested (codes "7") (codes "12")) (7 ∷ []) ≡ codes "[12]")
    × (parse_citations (codes "[12]") 5 ≡ ([], 12 ∷ []))
unfolding atoi
nested_marker_survives_example =
    nested_marker_survives 5 (codes "7") (codes "12") 7 12 refl (refl, refl) refl refl refl refl
