-- ===== src/Store/Vectors.antt =====
-- internal/store/store.go: `vectorLiteral`. `fmt_float` is `strconv.FormatFloat` of a number.
use ragline.Base.{
  ◌≡◌, refl, sym, ap, ◌∙◌, List, [], ◌∷◌, ◌++◌, append_assoc, Bytes, codes, join, map,
}

module _ {V : Type 0} (fmt_float : V → Bytes) where
  -- The loop over the rest of the numbers, behind the first.
  unfoldable pub write_rest : List V → Bytes
  write_rest [] = b']' ∷ []
  write_rest (f ∷ fs) = b',' ∷ (fmt_float f ++ write_rest fs)

  -- `vectorLiteral`
  unfoldable pub vector_literal : List V → Bytes
  unfolding write_rest
  vector_literal [] = codes "[]"
  vector_literal (f ∷ fs) = b'[' ∷ (fmt_float f ++ write_rest fs)

  rest-join :
      (f : V) (fs : List V)
      → fmt_float f ++ write_rest fs ≡ join (map fmt_float (f ∷ fs)) (codes ",") ++ codes "]"
  unfolding write_rest join
  rest-join f [] = refl
  rest-join f (g ∷ gs) =
      let tail = join (map fmt_float (g ∷ gs)) (codes ",") in
      ap (λ t. fmt_float f ++ b',' ∷ t) (rest-join g gs)
      ∙ sym (append_assoc (fmt_float f) (b',' ∷ tail) (codes "]"))

  -- The literal is the numbers, joined by commas, in brackets.
  vector_literal-join :
      (v : List V) → vector_literal v ≡ b'[' ∷ (join (map fmt_float v) (codes ",") ++ codes "]")
  unfolding vector_literal
  vector_literal-join [] = unfold join in refl
  vector_literal-join (f ∷ fs) = ap (λ t. b'[' ∷ t) (rest-join f fs)
