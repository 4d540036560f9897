-- ===== src/Wim/Names/Order.antt =====
-- The order of names is strict and total.
use go_wim.Base.{ℕ, ◌≡◌, refl, true, false, List, [], ◌∷◌, arith}
use go_wim.Wim.Names.{name_lt, name_eq}

pub name_eq→eq : (a b : List ℕ) → name_eq a b ≡ true → a ≡ b
unfolding name_eq
name_eq→eq [] [] e = refl
name_eq→eq [] (y ∷ b) e = cc
name_eq→eq (x ∷ a) [] e = cc
name_eq→eq (x ∷ a) (y ∷ b) e = ground (arith, name_eq→eq a b)

pub name_eq_refl : (a : List ℕ) → name_eq a a ≡ true
unfolding name_eq
name_eq_refl [] = refl
name_eq_refl (x ∷ a) = ground (arith, name_eq_refl a)

pub name_lt-asymm : (a b : List ℕ) → name_lt a b ≡ true → name_lt b a ≡ false
unfolding name_lt
name_lt-asymm [] [] e = cc
name_lt-asymm [] (y ∷ b) e = refl
name_lt-asymm (x ∷ a) [] e = cc
name_lt-asymm (x ∷ a) (y ∷ b) e = ground (arith, name_lt-asymm a b)

pub name_lt_irrefl : (a : List ℕ) → name_lt a a ≡ false
unfolding name_lt
name_lt_irrefl [] = refl
name_lt_irrefl (x ∷ a) = ground (arith, name_lt_irrefl a)

pub name_lt_trans : (a b c : List ℕ) → name_lt a b ≡ true → name_lt b c ≡ true → name_lt a c ≡ true
unfolding name_lt
name_lt_trans [] [] c e f = cc
name_lt_trans [] (y ∷ b) [] e f = cc
name_lt_trans [] (y ∷ b) (z ∷ c) e f = refl
name_lt_trans (x ∷ a) [] c e f = cc
name_lt_trans (x ∷ a) (y ∷ b) [] e f = cc
name_lt_trans (x ∷ a) (y ∷ b) (z ∷ c) e f = ground (arith, name_lt_trans a b c)

-- Of two different names one comes first.
pub name_lt_total : (a b : List ℕ) → name_lt b a ≡ false → name_eq b a ≡ false → name_lt a b ≡ true
unfolding name_lt name_eq
name_lt_total [] [] e f = cc
name_lt_total [] (y ∷ b) e f = refl
name_lt_total (x ∷ a) [] e f = cc
name_lt_total (x ∷ a) (y ∷ b) e f = ground (arith, name_lt_total a b)
