-- ===== src/Llm/Extract/Tests.antt =====
-- Runs of `ExtractJSON` on the shapes that internal/rerank/rerank_test.go feeds it.
use ragline.Base.{[], Bytes, trim_space, ◌≡◌, refl, none, some, ◌∷◌, ◌++◌, codes, has_prefix}
use ragline.Llm.Extract.{extract_json, cut_first, fence, quote}
use ragline.Llm.Extract.Values.{
  Body, empty, string, nested, closed, char, no_open, extract_json-value,
}

in_prose : extract_json (codes "Sure: {a[}]} and {b}") ≡ some (codes "{a[}")
unfolding extract_json has_prefix
in_prose = refl

no_value : extract_json (codes "I think passage 2 is best.") ≡ none
unfolding extract_json has_prefix
no_value = refl

in_fence :
    extract_json (fence ++ (codes "json" ++ 10 ∷ codes "[1,2]") ++ 10 ∷ fence)
    ≡ some (codes "[1,2]")
unfolding extract_json has_prefix
in_fence = refl

-- A string that holds a closing bracket, and a nested value.
abbrev body : Bytes
body = quote ∷ ((b'}' ∷ quote ∷ []) ++ (b'{' ∷ ([] ++ b'}' ∷ [])))

body-Body : Body b'{' body
body-Body = string (b'}' ∷ quote ∷ []) _ (char b'}' _ refl refl closed) (nested [] [] empty empty)

extract_json-value_example :
    extract_json (codes " Call `f`: " ++ b'{' ∷ (body ++ b'}' ∷ codes " and {b}"))
    ≡ some (b'{' ∷ (body ++ b'}' ∷ []))
unfolding trim_space no_open cut_first has_prefix
extract_json-value_example =
    extract_json-value (codes " Call `f`: " ++ b'{' ∷ (body ++ b'}' ∷ codes " and {b}"))
      (codes "Call `f`: ") body (codes " and {b}") b'{' refl refl refl refl body-Body
