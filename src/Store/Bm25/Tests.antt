-- ===== src/Store/Bm25/Tests.antt =====
-- Three insertions, one of them of a taken identifier, and a deletion.
use ragline.Base.{ℕ, ◌+◌, ◌-◌, ◌*◌, ◌≡◌, refl, true, false, List, [], ◌∷◌, codes, bytes_eq}
use ragline.Store.Whole.{whole}
use ragline.Store.Fusion.{scored_ids, is_among}
use ragline.Store.Fusion.Keywords.{Distinct}
use ragline.Store.Terms.{Lexeme, Change, add_chunk, drop_chunk, find_chunk, changes, backfill}
use ragline.Store.Terms.Kept.{SameStats, no_chunks, changes-backfill}
use ragline.Store.Bm25.{Arithmetic, bm25_matches}
use ragline.Store.Bm25.Matches.{holds_any, bm25_matches-changes}

abbrev keys : Lexeme
keys = record { lexeme = codes "key"; weights = true ∷ false ∷ [] }

abbrev rotation : Lexeme
rotation = record { lexeme = codes "rotat"; weights = [] }

abbrev history : List Change
history =
    add_chunk (record { id = 11; tsv = keys ∷ [] })
    ∷ add_chunk (record { id = 12; tsv = keys ∷ rotation ∷ [] })
    ∷ add_chunk (record { id = 12; tsv = [] })
    ∷ drop_chunk 11
    ∷ []

-- Whole numbers stand for `float8`.
abbrev rounded : Arithmetic whole
rounded = record {
  of_nat = λ n. n;
  half = 0;
  k1 = 1;
  b = 0;
  add = λ m n. m + n;
  sub = λ m n. m - n;
  mul = λ m n. m * n;
  div = λ m n. m;
  ln = λ n. n;
}

total_behind : (changes history no_chunks).stats.total_len ≡ 4
unfolding changes backfill bytes_eq
total_behind = refl

finds_twelve :
    scored_ids whole
      (bm25_matches whole rounded (changes history no_chunks) (codes "key" ∷ codes "rotat" ∷ []))
    ≡ 12 ∷ []
unfolding changes backfill bytes_eq bm25_matches
finds_twelve = refl

changes-backfill_example :
    SameStats (changes history no_chunks).stats (backfill (changes history no_chunks).chunks)
changes-backfill_example = changes-backfill history

bm25_matches-changes_example :
    Distinct
      (scored_ids whole (bm25_matches whole rounded (changes history no_chunks) (codes "key" ∷ [])))
    × ((k : ℕ)
        → is_among k (
            scored_ids whole
              (bm25_matches whole rounded (changes history no_chunks) (codes "key" ∷ [])))
          ≡ holds_any (codes "key" ∷ []) (find_chunk k (changes history no_chunks).chunks))
bm25_matches-changes_example = bm25_matches-changes whole rounded history (codes "key" ∷ [])
