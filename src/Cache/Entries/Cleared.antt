-- ===== src/Cache/Entries/Cleared.antt =====
-- `InvalidateAnswers`: what the loop drops in the course of a whole scan of the keys.
use ragline.Base.{
  ℕ, zero, suc, ◌+◌, ◌≤◌, ◌≡◌, refl, ap, ◌∙◌, Bool, true, false, ◌||◌, List, [], ◌∷◌, ◌++◌, Option,
  none, some, Bytes, bytes_eq, arith, if◌then◌else◌,
}
use ragline.Cache.Entries.{
  Redis, Server, Ended, cleared, Again, next_page, drop_page, pattern_of_answers, clear_pages,
}

-- `k` is one of the keys of a list.
unfoldable pub listed : List Bytes → Bytes → Bool
listed [] x = false
listed (k ∷ keys) x = bytes_eq x k || listed keys x

listed-append :
    (xs ys : List Bytes) (k : Bytes) → listed (xs ++ ys) k ≡ (listed xs k || listed ys k)
unfolding listed
listed-append [] ys k = refl
listed-append (x ∷ xs) ys k = ground (arith, listed-append xs ys k)

-- What Redis documents of `DEL`: the keys are gone, no other key is touched, and the reply is the
-- number of keys that were removed.
pub record DelLaws {R : Type 0} (redis : Redis R) : Type 0 where
  pub size : R → ℕ
  pub get-del :
      (keys : List Bytes) (now : ℕ) (k : Bytes) (r : R)
      → redis.get now k (redis.del keys r).0 ≡ (if listed keys k then none else redis.get now k r)
  pub del_count :
      (keys : List Bytes) (r : R) → (redis.del keys r).1 + size (redis.del keys r).0 ≡ size r

either_none :
    {A : Type 0} (a b : Bool) (x y z : Option A)
    → y ≡ (if a then none else x)
    → z ≡ (if b then none else y)
    → z ≡ (if a || b then none else x)
either_none true true x y z e f = f
either_none true false x y z e f = f ∙ e
either_none false true x y z e f = f
either_none false false x y z e f = f ∙ e

module _ {R : Type 0} (redis : Redis R) (laws : DelLaws redis) where
  -- The listed keys are gone, `n` of them were there, and the others read as before.
  pub record Without (keys : List Bytes) (es left : R) (n : ℕ) : Type 0 where
    pub counted : n + laws.size left ≡ laws.size es
    pub reads :
        (now : ℕ) (k : Bytes)
        → redis.get now k left ≡ (if listed keys k then none else redis.get now k es)

  Without-nil : (es : R) → Without [] es es 0
  unfolding listed
  Without-nil es = record { counted = omega arith; reads = λ now k. refl }

  Without-append :
      (xs ys : List Bytes) (es mid left : R) (a b : ℕ)
      → Without xs es mid a
      → Without ys mid left b
      → Without (xs ++ ys) es left (a + b)
  Without-append xs ys es mid left a b p q = record {
    counted = omega (arith, p.counted, q.counted);
    reads = λ now k. rw (listed-append xs ys k) (
        either_none (listed xs k) (listed ys k) (redis.get now k es) (redis.get now k mid)
          (redis.get now k left) (p.reads now k) (q.reads now k));
  }

  -- One round: the keys of the page are gone and counted.
  drop_page-Without :
      (again : Again R) (keys : List Bytes) (next d : ℕ) (es : R)
      → (left : R) × (n : ℕ) × (drop_page redis again true keys next d es
          ≡ next_page again next (d + n) left)
        × Without keys es left n
  drop_page-Without again [] next d es =
      (es, 0, ap (λ t. next_page again next t es) (omega arith), Without-nil es)
  drop_page-Without again (k ∷ keys) next d es = (
    (redis.del (k ∷ keys) es).0,
    (redis.del (k ∷ keys) es).1,
    refl,
    record {
      counted = laws.del_count (k ∷ keys) es;
      reads = λ now j. laws.get-del (k ∷ keys) now j es;
    },
  )

module _ (sv : Server) where
  -- What `SCAN` documents: from a cursor, the calls come round to 0 and have returned these keys.
  pub data Iterates : ℕ → ℕ → List Bytes → ℕ → Type 0 where
    last :
        {i c : ℕ} {keys : List Bytes}
        → sv.scan i c pattern_of_answers 200 ≡ some (keys, 0)
        → Iterates i c keys 1
    more :
        {i c n calls : ℕ} {keys rest : List Bytes}
        → sv.scan i c pattern_of_answers 200 ≡ some (keys, suc n)
        → Iterates (suc i) (suc n) rest calls
        → Iterates i c (keys ++ rest) (suc calls)

  module _ {R : Type 0} (redis : Redis R) (laws : DelLaws redis) where
    -- What the loop is to come to from a state: the listed keys are gone, and counted.
    abbrev pub Drops : List Bytes → ℕ → R → R × Ended → Type 0
    Drops keys d es r =
        (left : R) × (n : ℕ) × (r ≡ (left, cleared (d + n))) × Without redis laws keys es left n

    module _ (up : (i : ℕ) → sv.del_up i ≡ true) where
      pub clear_pages-Drops :
          (fuel i c d calls : ℕ) {keys : List Bytes} (es : R)
          → Iterates i c keys calls
          → calls ≤ fuel
          → Drops keys d es (clear_pages redis sv fuel i c d es)
      unfolding clear_pages
      clear_pages-Drops zero i c d calls es (last at) h = absurd (omega arith)
      clear_pages-Drops zero i c d calls es (more at it) h = absurd (omega arith)
      clear_pages-Drops (suc fuel) i c d calls {keys} es (last at) h =
          rw (at, up i)
            (drop_page-Without redis laws (clear_pages redis sv fuel (suc i)) keys 0 d es)
      clear_pages-Drops (suc fuel) i c d calls es (more {n} {keys} {rest} at it) h =
          let again = clear_pages redis sv fuel (suc i) in
          let (mid, a, page, gone) = drop_page-Without redis laws again keys (suc n) d es in
          let (left, b, ends, gone_later) =
            clear_pages-Drops fuel (suc i) (suc n) (d + a) _ mid it (omega arith) in
          rw (at, up i)
            (
              left,
              a + b,
              page ∙ ends ∙ ap (λ t. (left, cleared t)) (omega arith),
              Without-append redis laws keys rest es mid left a b gone gone_later,
            )
