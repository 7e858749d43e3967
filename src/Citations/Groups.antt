-- ===== src/Citations/Groups.antt =====
-- A rewritten group is a marker again, and its numbers are the ones that were kept.
use ragline.Base.{
  ℕ, ◌≡◌, refl, ap, ◌∙◌, Bool, true, false, not, ◌&&◌, List, [], ◌∷◌, ◌++◌, append_assoc, Option,
  none, some, Bytes, codes, arith, is_digit, join, if◌then◌else◌,
}
use ragline.Citations.{start, want, push, run, numbers, atoi, keep, print_group, contains}
use ragline.Citations.Parse.{values, cons_some}

-- One digit, or two.
abbrev pub IsRaw : Bytes → Type 0
IsRaw [] = ⊥
IsRaw (c ∷ []) = is_digit c ≡ true
IsRaw (c ∷ d ∷ []) = (is_digit c ≡ true) × (is_digit d ≡ true)
IsRaw (c ∷ d ∷ e ∷ s) = ⊥

abbrev pub AllRaw : List Bytes → Type 0
AllRaw [] = Unit
AllRaw (raw ∷ rest) = IsRaw raw × AllRaw rest

pub numbers-AllRaw : (s : Bytes) → AllRaw (numbers s)
unfolding numbers
numbers-AllRaw [] = tt
numbers-AllRaw (c ∷ []) = ground arith
numbers-AllRaw (c ∷ d ∷ s) = ground (arith, numbers-AllRaw s, numbers-AllRaw (d ∷ s))

module _ (bad : ℕ → Bool) where
  -- The step of `keep`, on a parsed number.
  abbrev kept : Bytes → Option ℕ → List Bytes → List Bytes
  kept raw none rest = rest
  kept raw (some n) rest = if bad n then rest else raw ∷ rest

  keep_step :
      (raw : Bytes) (rest : List Bytes)
      → keep bad (raw ∷ rest) ≡ kept raw (atoi raw) (keep bad rest)
  unfolding keep
  keep_step raw rest = ground arith

  kept-AllRaw :
      (raw : Bytes) (o : Option ℕ) (rest : List Bytes)
      → IsRaw raw
      → AllRaw rest
      → AllRaw (kept raw o rest)
  kept-AllRaw raw none rest h hs = hs
  kept-AllRaw raw (some n) rest h hs = ground arith

  pub keep-AllRaw : (raws : List Bytes) → AllRaw raws → AllRaw (keep bad raws)
  keep-AllRaw [] _ = unfold keep in tt
  keep-AllRaw (raw ∷ rest) (h, hs) =
      rw keep_step (kept-AllRaw raw (atoi raw) (keep bad rest) h (keep-AllRaw rest hs))

  kept-contains :
      (raw : Bytes) (o : Option ℕ) (kept_rest rest : List Bytes) (n : ℕ)
      → atoi raw ≡ o
      → contains (values kept_rest) n ≡ (contains (values rest) n && not (bad n))
      → contains (values (kept raw o kept_rest)) n
        ≡ (contains (cons_some o (values rest)) n && not (bad n))
  kept-contains raw none kept_rest rest n e h = h
  kept-contains raw (some m) kept_rest rest n e h = unfold contains values in ground arith

  -- What is kept are the numbers that are not bad.
  pub contains-values-keep :
      (raws : List Bytes) (n : ℕ)
      → contains (values (keep bad raws)) n ≡ (contains (values raws) n && not (bad n))
  unfolding values
  contains-values-keep [] n = unfold keep contains in refl
  contains-values-keep (raw ∷ rest) n =
      rw keep_step
        (kept-contains raw (atoi raw) (keep bad rest) rest n refl (contains-values-keep rest n))

-- A number, then what stands behind it in a printed group.
abbrev pub prepend : Bytes → Option (Bytes × Bytes) → Option (Bytes × Bytes)
prepend s none = none
prepend s (some (w, r)) = some (s ++ w, r)

run_raw_close :
    (raw t : Bytes) → IsRaw raw → run want (raw ++ (b']' ∷ t)) ≡ some (raw ++ (b']' ∷ []), t)
unfolding run
run_raw_close [] t h = absurd h
run_raw_close (c ∷ []) t h = ground arith
run_raw_close (c ∷ d ∷ []) t h = ground arith
run_raw_close (c ∷ d ∷ e ∷ s) t h = absurd h

run_raw_comma :
    (raw t : Bytes)
    → IsRaw raw
    → run want (raw ++ (codes ", " ++ t)) ≡ prepend (raw ++ codes ", ") (run want t)
unfolding run
run_raw_comma [] t h = absurd h
run_raw_comma (c ∷ []) t h = ground arith
run_raw_comma (c ∷ d ∷ []) t h = ground arith
run_raw_comma (c ∷ d ∷ e ∷ s) t h = absurd h

-- The inside of a printed group, its closing bracket included.
abbrev inside : List Bytes → Bytes
inside raws = join raws (codes ", ") ++ b']' ∷ []

inside_step :
    (raw next_raw : Bytes) (rest : List Bytes) (t : Bytes)
    → inside (raw ∷ next_raw ∷ rest) ++ t ≡ raw ++ (codes ", " ++ (inside (next_raw ∷ rest) ++ t))
unfolding join
inside_step raw next_raw rest t = simp append_assoc

run-inside :
    (raw : Bytes) (rest : List Bytes) (t : Bytes)
    → AllRaw (raw ∷ rest)
    → run want (inside (raw ∷ rest) ++ t) ≡ some (inside (raw ∷ rest), t)
run-inside raw [] t (h, _) = unfold join in rw append_assoc (run_raw_close raw t h)
run-inside raw (raw' ∷ rest) t (h, hs) =
    rw (inside_step, run_raw_comma raw _ h, run-inside raw' rest t hs)
      (unfold join in ap (λ w. some (w, t)) (simp append_assoc))

-- A printed group is matched whole, whatever follows it.
pub run-print_group :
    (raw : Bytes) (rest : List Bytes) (t : Bytes)
    → AllRaw (raw ∷ rest)
    → run start (print_group (raw ∷ rest) ++ t) ≡ some (print_group (raw ∷ rest), t)
unfolding print_group run
run-print_group raw rest t h = ap (push b'[') (run-inside raw rest t h)

numbers_skip : (c : ℕ) (s : Bytes) → is_digit c ≡ false → numbers (c ∷ s) ≡ numbers s
unfolding numbers
numbers_skip c [] h = ground arith
numbers_skip c (d ∷ s) h = ground arith

numbers_raw :
    (raw : Bytes) (c : ℕ) (s : Bytes)
    → IsRaw raw
    → is_digit c ≡ false
    → numbers (raw ++ c ∷ s) ≡ raw ∷ numbers (c ∷ s)
unfolding numbers
numbers_raw [] c s h _ = absurd h
numbers_raw (c ∷ []) d s h n = ground arith
numbers_raw (c ∷ d ∷ []) e s h n = ground arith
numbers_raw (c ∷ d ∷ e ∷ s) x t h _ = absurd h

inside_front :
    (raw next_raw : Bytes) (rest : List Bytes)
    → inside (raw ∷ next_raw ∷ rest) ≡ raw ++ (codes ", " ++ inside (next_raw ∷ rest))
unfolding join
inside_front raw next_raw rest = simp append_assoc

numbers-inside :
    (raw : Bytes) (rest : List Bytes)
    → AllRaw (raw ∷ rest)
    → numbers (inside (raw ∷ rest)) ≡ raw ∷ rest
numbers-inside raw [] (h, _) =
    unfold join numbers in
    (numbers_raw raw b']' [] h refl ∙ ap (λ t. raw ∷ t) (numbers_skip b']' [] refl))
numbers-inside raw (raw' ∷ rest) (h, hs) =
    rw (inside_front raw raw' rest, numbers_raw raw b',' _ h refl, numbers_skip b',' _ refl)
      (rw (numbers_skip b' ' _ refl, numbers-inside raw' rest hs))

-- The numbers of a printed group are the ones that it was printed from.
pub numbers-print_group : (raws : List Bytes) → AllRaw raws → numbers (print_group raws) ≡ raws
numbers-print_group [] _ = unfold numbers print_group in refl
numbers-print_group (raw ∷ rest) h =
    unfold print_group in (numbers_skip b'[' (inside (raw ∷ rest)) refl ∙ numbers-inside raw rest h)
