-- ===== src/Citations/Segments.antt =====
-- The cut of a text into literal bytes and groups, read back, and when a list of segments is the cut
-- of its own text.
use ragline.Base.{
  ℕ, zero, suc, ◌≤◌, ◌≡◌, refl, sym, ap, List, [], ◌∷◌, ◌++◌, Option, none, some, Bytes, length,
  length-append, arith,
}
use ragline.Citations.{
  Mode, start, stop, accept, goto, next, push, run, Segment, lit, group, cut, segments,
}

-- The text that segments stand for.
abbrev pub text_of : List Segment → Bytes
text_of [] = []
text_of (lit c ∷ rest) = c ∷ text_of rest
text_of (group w ∷ rest) = w ++ text_of rest

abbrev pub Splits : Bytes → Option (Bytes × Bytes) → Type 0
Splits s none = Unit
Splits s (some (w, r)) = (s ≡ w ++ r) × (suc (length r) ≤ length s)

Splits-push :
    (c : ℕ) (s : Bytes) (o : Option (Bytes × Bytes)) → Splits s o → Splits (c ∷ s) (push c o)
Splits-push c s none h = tt
Splits-push c s (some (w, r)) (e, h) = (ap (λ t. c ∷ t) e, omega arith)

pub run-Splits : (m : Mode) (s : Bytes) → Splits s (run m s)
unfolding run
run-Splits m [] = tt
run-Splits m (c ∷ s) =
    elim (next m c)
      as (λ x.
        Splits (c ∷ s)
          (elim x [ stop ↦ none | accept ↦ some (c ∷ [], s) | goto m' ↦ push c (run m' s) ])) [
            | stop ↦ tt
            | accept ↦ (refl, omega arith)
            | goto m' ↦ Splits-push c s (run m' s) (run-Splits m' s)
          ]

-- The segments of a text spell the text, whatever the fuel beyond its length.
text_of-cut : (f : ℕ) (s : Bytes) → length s ≤ f → text_of (cut f s) ≡ s
unfolding cut
text_of-cut zero [] h = refl
text_of-cut zero (c ∷ s) h = absurd (omega arith)
text_of-cut (suc f) [] h = refl
text_of-cut (suc f) (c ∷ s) h =
    go (run start (c ∷ s)) (run-Splits start (c ∷ s)) (λ t short. text_of-cut f t short)
  where
    go :
        (o : Option (Bytes × Bytes))
        → Splits (c ∷ s) o
        → ((t : Bytes) → length t ≤ f → text_of (cut f t) ≡ t)
        → text_of (elim o [ none ↦ lit c ∷ cut f s | some (w, r) ↦ group w ∷ cut f r ]) ≡ c ∷ s
    go none _ ih = ap (λ t. c ∷ t) (ih s (omega arith))
    go (some (w, r)) (e, short) ih = rw (ih r (omega arith)) (sym e)

pub text_of-segments : (s : Bytes) → text_of (segments s) ≡ s
unfolding segments
text_of-segments s = text_of-cut (length s) s (omega arith)

-- A list of segments that is the cut of its own text: no match begins at a literal byte, and each
-- group is the match that begins where it stands.
abbrev pub IsCut : List Segment → Type 0
IsCut [] = Unit
IsCut (lit c ∷ rest) = (run start (c ∷ text_of rest) ≡ none) × IsCut rest
IsCut (group w ∷ rest) = (run start (w ++ text_of rest) ≡ some (w, text_of rest)) × IsCut rest

run-nil : (m : Mode) → run m [] ≡ none
unfolding run
run-nil m = refl

cut-text_of :
    (f : ℕ) (segs : List Segment)
    → IsCut segs
    → length (text_of segs) ≤ f
    → cut f (text_of segs) ≡ segs
unfolding cut
cut-text_of zero [] h k = refl
cut-text_of (suc f) [] h k = refl
cut-text_of zero (lit c ∷ rest) h k = absurd (omega arith)
cut-text_of (suc f) (lit c ∷ rest) (h, hs) k =
    rw (h, cut) (ap (λ t. lit c ∷ t) (cut-text_of f rest hs (omega arith)))
cut-text_of f (group [] ∷ rest) (h, hs) k = absurd (empty_group (text_of rest) h)
  where
    empty_group : (s : Bytes) → run start s ≡ some ([], s) → ⊥
    empty_group [] e = cc (e, run-nil start)
    empty_group (d ∷ t) e = absurd (omega (arith, (rw e at (run-Splits start (d ∷ t))).1))
cut-text_of zero (group (c ∷ w) ∷ rest) h k = absurd (omega arith)
cut-text_of (suc f) (group (c ∷ w) ∷ rest) (h, hs) k =
    rw (h, cut)
      (ap (λ t. group (c ∷ w) ∷ t)
        (cut-text_of f rest hs (omega (arith, length-append w (text_of rest)))))

pub segments-text_of : (segs : List Segment) → IsCut segs → segments (text_of segs) ≡ segs
unfolding segments
segments-text_of segs h = cut-text_of (length (text_of segs)) segs h (omega arith)
