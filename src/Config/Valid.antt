-- ===== src/Config/Valid.antt =====
-- Which configurations `Load` returns.
use ragline.Base.{◌≤◌, ◌≡◌, true, false, Bytes, arith, ℤ, pos, negsuc, Bool-cases, inl, inr}
use ragline.Config.{
  Parsers, Config, dim_too_large, context_exceeds_rerank, Loaded, loaded, invalid, exceeds,
  read_config, load,
}

-- The order of the integers.
pub Le : ℤ → ℤ → Type 0
Le (pos m) (pos n) = m ≤ n
Le (pos m) (negsuc n) = ⊥
Le (negsuc m) (pos n) = Unit
Le (negsuc m) (negsuc n) = n ≤ m

exceeds-Le : (a b : ℤ) → exceeds a b ≡ false → Le a b
unfolding Le
exceeds-Le (pos m) (pos n) h = ground arith
exceeds-Le (pos m) (negsuc n) h = cc
exceeds-Le (negsuc m) (pos n) h = tt
exceeds-Le (negsuc m) (negsuc n) h = ground arith

Le-exceeds : (a b : ℤ) → exceeds a b ≡ true → Le a b → ⊥
unfolding Le
Le-exceeds (pos m) (pos n) h l = ground arith
Le-exceeds (pos m) (negsuc n) h l = l
Le-exceeds (negsuc m) (pos n) h l = cc
Le-exceeds (negsuc m) (negsuc n) h l = ground arith

-- What `Load` returns: the configuration that the environment spells where it is within the limits,
-- and otherwise the error of the first limit that it breaks.
pub data Checked {V : Type 0} (c : Config V) : Loaded V → Type 0 where
  within : Le c.embedding_dim (pos 2000) → Le c.context_top_n c.rerank_top_n → Checked c (loaded c)
  too_large : (Le c.embedding_dim (pos 2000) → ⊥) → Checked c (invalid dim_too_large)
  too_many :
      Le c.embedding_dim (pos 2000)
      → (Le c.context_top_n c.rerank_top_n → ⊥)
      → Checked c (invalid context_exceeds_rerank)

-- `Load` returns the configuration that the environment spells exactly where the dimension of the
-- embeddings is at most 2000 and no more chunks reach the generator than the reranker gets; otherwise
-- it returns the error of the limit that is broken, the dimension first.
pub load-Checked :
    {V : Type 0} (p : Parsers V) (getenv : Bytes → Bytes)
    → Checked (read_config p getenv) (load p getenv)
unfolding load
load-Checked p getenv =
    let c = read_config p getenv in
    elim (Bool-cases (exceeds c.embedding_dim (pos 2000))) [
      | inl large ↦ rw large (too_large (Le-exceeds c.embedding_dim (pos 2000) large))
      | inr small ↦ rw small (elim (Bool-cases (exceeds c.context_top_n c.rerank_top_n)) [
        | inl many ↦ rw many (
            too_many (exceeds-Le c.embedding_dim (pos 2000) small)
              (Le-exceeds c.context_top_n c.rerank_top_n many))
        | inr few ↦ rw few (
            within (exceeds-Le c.embedding_dim (pos 2000) small)
              (exceeds-Le c.context_top_n c.rerank_top_n few))
      ])
    ]
