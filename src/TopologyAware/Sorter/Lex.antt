-- ===== src/TopologyAware/Sorter/Lex.antt =====
-- The lexicographic order on lists of numbers of one length.
use cloud_native.Prelude.{
  ℕ, Bool, true, false, List, [], ◌∷◌, ◌≡◌, refl, arith, ltb, length, if◌then◌else◌,
}

unfoldable pub lex_lt : List ℕ → List ℕ → Bool
lex_lt [] ys = false
lex_lt (x ∷ xs) [] = false
lex_lt (x ∷ xs) (y ∷ ys) =
    let rest = lex_lt xs ys in if ltb x y then true else if ltb y x then false else rest

pub lex_lt_irrefl : (xs : List ℕ) → lex_lt xs xs ≡ false
unfolding lex_lt
lex_lt_irrefl [] = refl
lex_lt_irrefl (x ∷ xs) = ground (arith, lex_lt_irrefl xs)

pub lex_lt_trans :
    (xs ys zs : List ℕ) → lex_lt xs ys ≡ true → lex_lt ys zs ≡ true → lex_lt xs zs ≡ true
unfolding lex_lt
lex_lt_trans [] ys zs h k = cc
lex_lt_trans (x ∷ xs) [] zs h k = cc
lex_lt_trans (x ∷ xs) (y ∷ ys) [] h k = cc
lex_lt_trans (x ∷ xs) (y ∷ ys) (z ∷ zs) h k = ground (arith, lex_lt_trans xs ys zs)

pub lex_lt-total :
    (xs ys : List ℕ) → length xs ≡ length ys → lex_lt xs ys ≡ false → lex_lt ys xs ≡ false → xs ≡ ys
unfolding lex_lt
lex_lt-total [] [] l h k = refl
lex_lt-total [] (y ∷ ys) l h k = absurd (omega arith)
lex_lt-total (x ∷ xs) [] l h k = absurd (omega arith)
lex_lt-total (x ∷ xs) (y ∷ ys) l h k = ground (arith, lex_lt-total xs ys)

-- Not being before passes on along lists of one length.
pub lex_ge_trans :
    (xs ys zs : List ℕ)
    → length xs ≡ length ys
    → length ys ≡ length zs
    → lex_lt xs ys ≡ false
    → lex_lt ys zs ≡ false
    → lex_lt xs zs ≡ false
unfolding lex_lt
lex_ge_trans [] ys zs l m h k = refl
lex_ge_trans (x ∷ xs) [] zs l m h k = absurd (omega arith)
lex_ge_trans (x ∷ xs) (y ∷ ys) [] l m h k = refl
lex_ge_trans (x ∷ xs) (y ∷ ys) (z ∷ zs) l m h k = ground (arith, lex_ge_trans xs ys zs)

pub lex_lt-asymm : (xs ys : List ℕ) → lex_lt xs ys ≡ true → lex_lt ys xs ≡ false
unfolding lex_lt
lex_lt-asymm [] ys h = cc
lex_lt-asymm (x ∷ xs) [] h = cc
lex_lt-asymm (x ∷ xs) (y ∷ ys) h = ground (arith, lex_lt-asymm xs ys)
