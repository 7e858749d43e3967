-- ===== src/Citations/Sorting.antt =====
-- `sort.Ints` on distinct numbers: the ascending list with the same members, which is the only one.
use ragline.Base.{ℕ, ◌<◌, ◌≡◌, refl, ap, ap₂, ◌∙◌, true, false, ◌||◌, List, [], ◌∷◌, ◌==◌, arith}
use ragline.Citations.{contains, insert_int, sort_ints}

-- Every number of the list is larger than `n`.
abbrev pub Above : ℕ → List ℕ → Type 0
Above n [] = Unit
Above n (m ∷ ms) = (n < m) × Above n ms

abbrev pub Ascending : List ℕ → Type 0
Ascending [] = Unit
Ascending (n ∷ ns) = Above n ns × Ascending ns

abbrev pub Distinct : List ℕ → Type 0
Distinct [] = Unit
Distinct (n ∷ ns) = (contains ns n ≡ false) × Distinct ns

contains-insert_int :
    (n : ℕ) (ms : List ℕ) (k : ℕ) → contains (insert_int n ms) k ≡ (k == n || contains ms k)
unfolding contains insert_int
contains-insert_int n [] k = refl
contains-insert_int n (m ∷ ms) k = ground (arith, contains-insert_int n ms k)

pub contains-sort_ints : (ns : List ℕ) (k : ℕ) → contains (sort_ints ns) k ≡ contains ns k
unfolding contains sort_ints
contains-sort_ints [] k = refl
contains-sort_ints (n ∷ ns) k =
    contains-insert_int n (sort_ints ns) k ∙ ap (λ b. k == n || b) (contains-sort_ints ns k)

Above-insert_int : (n m : ℕ) (ms : List ℕ) → n < m → Above n ms → Above n (insert_int m ms)
unfolding insert_int
Above-insert_int n m [] h hs = (h, tt)
Above-insert_int n m (x ∷ xs) h (hx, hs) = ground (arith, Above-insert_int n m xs h hs)

Above-trans : (n m : ℕ) (ms : List ℕ) → n < m → Above m ms → Above n ms
Above-trans n m [] h hs = tt
Above-trans n m (x ∷ xs) h (hx, hs) = (omega arith, Above-trans n m xs h hs)

Ascending-insert_int :
    (n : ℕ) (ms : List ℕ) → contains ms n ≡ false → Ascending ms → Ascending (insert_int n ms)
unfolding contains insert_int
Ascending-insert_int n [] h _ = (tt, tt)
Ascending-insert_int n (m ∷ ms) h (above, rest) =
    ground (arith, Ascending-insert_int n ms, Above-insert_int m n ms, Above-trans n m ms)

pub Ascending-sort_ints : (ns : List ℕ) → Distinct ns → Ascending (sort_ints ns)
unfolding sort_ints
Ascending-sort_ints [] _ = tt
Ascending-sort_ints (n ∷ ns) (fresh, rest) =
    Ascending-insert_int n (sort_ints ns) (contains-sort_ints ns n ∙ fresh)
      (Ascending-sort_ints ns rest)

not-contains_below : (n : ℕ) (ms : List ℕ) (k : ℕ) → k < n → Above n ms → contains ms k ≡ false
unfolding contains
not-contains_below n [] k h _ = refl
not-contains_below n (m ∷ ms) k h (hm, hs) = ground (arith, not-contains_below n ms k h hs)

not-contains_self : (n : ℕ) (ms : List ℕ) → Above n ms → contains ms n ≡ false
unfolding contains
not-contains_self n [] _ = refl
not-contains_self n (m ∷ ms) (hm, hs) = ground (arith, not-contains_self n ms hs)

contains_head : (n : ℕ) (ns : List ℕ) → contains (n ∷ ns) n ≡ true
unfolding contains
contains_head n ns = ground arith

abbrev SameMembers : List ℕ → List ℕ → Type 0
SameMembers xs ys = (k : ℕ) → contains xs k ≡ contains ys k

same_head :
    (x y : ℕ) (xs ys : List ℕ)
    → Above x xs
    → Above y ys
    → contains (x ∷ xs) y ≡ contains (y ∷ ys) y
    → contains (x ∷ xs) x ≡ contains (y ∷ ys) x
    → x ≡ y
unfolding contains
same_head x y xs ys hx hy at_y at_x =
    ground (arith, not-contains_below x xs y, not-contains_below y ys x)

same_tail :
    (x y : ℕ) (xs ys : List ℕ) (k : ℕ)
    → Above x xs
    → Above y ys
    → x ≡ y
    → contains (x ∷ xs) k ≡ contains (y ∷ ys) k
    → contains xs k ≡ contains ys k
unfolding contains
same_tail x y xs ys k hx hy e same =
    ground (arith, not-contains_self x xs hx, not-contains_self y ys hy)

contains-nil : (k : ℕ) → contains [] k ≡ false
unfolding contains
contains-nil k = refl

-- Two ascending lists with the same members are one list.
pub Ascending-unique : (xs ys : List ℕ) → Ascending xs → Ascending ys → SameMembers xs ys → xs ≡ ys
Ascending-unique [] [] _ _ _ = refl
Ascending-unique [] (y ∷ ys) _ _ same = cc (same y, contains_head y ys, contains-nil y)
Ascending-unique (x ∷ xs) [] _ _ same = cc (same x, contains_head x xs, contains-nil x)
Ascending-unique (x ∷ xs) (y ∷ ys) (hx, rx) (hy, ry) same =
    let e : x ≡ y = same_head x y xs ys hx hy (same y) (same x) in
    ap₂ ◌∷◌ e (Ascending-unique xs ys rx ry (λ k. same_tail x y xs ys k hx hy e (same k)))
