-- ===== src/Npu/Controller/Gemm/Region.antt =====
-- What a part of a plan leaves in C: a region that holds the product, and the rest as it was.
use maps.Prelude.{
  ℕ, zero, suc, ◌+◌, ◌<◌, ◌≡◌, ◌≢◌, ◌⊎◌, ◌∙◌, subst, List, length, get_or, arith, inl, inr,
}
use maps.Npu.Array.Dot.{dot, sum_products}
use maps.Npu.Array.Tile.{place_injective}
use maps.Npu.Controller.Tile.Layout.{a_place, b_place, c_place}
use maps.Npu.Descriptor.{Descriptor}

-- A sum of products in two parts.
sum_products_split :
    (x y : ℕ → ℕ) (a n : ℕ)
    → sum_products x y (a + n)
      ≡ sum_products x y a + sum_products (λ k. x (a + k)) (λ k. y (a + k)) n
sum_products_split x y a zero = rw (plus_zero a) (omega arith)
  where
    plus_zero : (a : ℕ) → a + 0 ≡ a
    plus_zero a = omega arith
sum_products_split x y a (suc n) = rw (plus_suc a n) (omega (arith, sum_products_split x y a n))
  where
    plus_suc : (a n : ℕ) → a + suc n ≡ suc (a + n)
    plus_suc a n = omega arith

pub dot_split :
    (x y : ℕ → ℕ) (a n : ℕ)
    → dot (λ k. x (a + k)) (λ k. y (a + k)) (dot x y 0 a) n ≡ dot x y 0 (a + n)
dot_split x y a n = omega (arith, sum_products_split x y a n)

module _ (d : Descriptor) (old : List ℕ) where
  -- The elements of A and B at the start of the run.
  abbrev pub a_at : ℕ → ℕ → ℕ
  a_at i k = get_or old (a_place d i k) 0

  abbrev pub b_at : ℕ → ℕ → ℕ
  b_at k j = get_or old (b_place d k j) 0

  -- The element of the product, as an INT32 pattern.
  abbrev pub product_at : ℕ → ℕ → ℕ
  product_at i j = dot (a_at i) (λ k. b_at k j) 0 d.matrix_k

  -- `words'` has the product in the region, and is `words` elsewhere.
  pub record HasProduct (region : ℕ → ℕ → Type 0) (words words' : List ℕ) : Type 0 where
    pub same_size : length words' ≡ length words
    pub inside : (i j : ℕ) → region i j → get_or words' (c_place d i j) 0 ≡ product_at i j
    pub outside :
        (x : ℕ)
        → ((i j : ℕ) → region i j → x ≢ c_place d i j)
        → get_or words' x 0 ≡ get_or words x 0

  pub HasProduct_join :
      (first second whole : ℕ → ℕ → Type 0) (words words' words'' : List ℕ)
      → HasProduct first words words'
      → HasProduct second words' words''
      → ((i j : ℕ) → whole i j → first i j ⊎ second i j)
      → ((i j : ℕ) → first i j → whole i j)
      → ((i j : ℕ) → second i j → whole i j)
      → ((i j : ℕ) → whole i j → j < d.matrix_n)
      → ((i j : ℕ) → first i j → second i j → ⊥)
      → HasProduct whole words words''
  HasProduct_join first second whole words words' words'' h h' split sub sub' cols apart = record {
    same_size = h'.same_size ∙ h.same_size;
    inside = λ i j r. inside_join i j (split i j r);
    outside = λ x out.
        h'.outside x (λ i j r. out i j (sub' i j r)) ∙ h.outside x (λ i j r. out i j (sub i j r));
  }
    where
      distinct : (i j i' j' : ℕ) → first i j → second i' j' → c_place d i j ≢ c_place d i' j'
      distinct i j i' j' r r' e =
          let (ei, ej) =
            place_injective d.matrix_n i j i' j' (cols i j (sub i j r)) (cols i' j' (sub' i' j' r'))
              (omega (arith, e)) in
          apart i' j' (subst (λ x. first x j') ei (subst (first i) ej r)) r'

      inside_join :
          (i j : ℕ) → first i j ⊎ second i j → get_or words'' (c_place d i j) 0 ≡ product_at i j
      inside_join i j (inl r) =
          h'.outside (c_place d i j) (λ i' j' r'. distinct i j i' j' r r') ∙ h.inside i j r
      inside_join i j (inr r) = h'.inside i j r

  -- Everything but C is as at the start.
  pub record IsKept (words : List ℕ) : Type 0 where
    pub same_size : length words ≡ length old
    pub outside :
        (x : ℕ)
        → ((i j : ℕ) → i < d.matrix_m → j < d.matrix_n → x ≢ c_place d i j)
        → get_or words x 0 ≡ get_or old x 0

  pub HasProduct-IsKept :
      (region : ℕ → ℕ → Type 0) (words words' : List ℕ)
      → IsKept words
      → HasProduct region words words'
      → ((i j : ℕ) → region i j → (i < d.matrix_m) × (j < d.matrix_n))
      → IsKept words'
  HasProduct-IsKept region words words' kept h sub = record {
    same_size = h.same_size ∙ kept.same_size;
    outside = λ x out.
        h.outside x (λ i j r. (let (hi, hj) = sub i j r in out i j hi hj)) ∙ kept.outside x out;
  }

  -- C overlaps neither A nor B.
  pub record IsApart : Type 0 where
    pub a_apart :
        (i k i' j' : ℕ)
        → i < d.matrix_m
        → k < d.matrix_k
        → i' < d.matrix_m
        → j' < d.matrix_n
        → a_place d i k ≢ c_place d i' j'
    pub b_apart :
        (k j i' j' : ℕ)
        → k < d.matrix_k
        → j < d.matrix_n
        → i' < d.matrix_m
        → j' < d.matrix_n
        → b_place d k j ≢ c_place d i' j'
