-- ===== src/Wire/VecDeque.antt =====
-- `VecDeque<u8>` of the standard library, as src/tcp_handler.rs uses it: a ring whose elements lie
-- in two runs, `as_slices`. What is pushed to the front of a fresh queue lies in the first run, what
-- is pushed to the back in the second.
use mathlib.Core.List.{reverse, reverse-cons}
use libtracy.Common.{
  ℕ, ◌+◌, ◌≡◌, refl, sym, ap, ◌∙◌, List, [], ◌∷◌, ◌++◌, append_assoc, append-nil, length,
  length-append,
}

pub record VecDeque : Type 0 where
  pub first : List ℕ
  pub second : List ℕ

unfoldable pub empty : VecDeque
empty = record { first = []; second = [] }

unfoldable pub push_back : VecDeque → ℕ → VecDeque
push_back q b = record q { second = q.second ++ b ∷ [] }

unfoldable pub push_front : VecDeque → ℕ → VecDeque
push_front q b = record q { first = b ∷ q.first }

unfoldable pub len : VecDeque → ℕ
len q = length q.first + length q.second

-- `for b in bytes { que.push_back(b) }`
unfoldable pub push_back_all : VecDeque → List ℕ → VecDeque
unfolding push_back
push_back_all q [] = q
push_back_all q (b ∷ bs) = push_back_all (push_back q b) bs

-- `for b in bytes { que.push_front(b) }`
unfoldable pub push_front_all : VecDeque → List ℕ → VecDeque
unfolding push_front
push_front_all q [] = q
push_front_all q (b ∷ bs) = push_front_all (push_front q b) bs

-- The elements in order.
unfoldable pub to_list : VecDeque → List ℕ
to_list q = q.first ++ q.second

pub to_list-empty : to_list empty ≡ []
unfolding to_list empty
to_list-empty = refl

pub length-to_list : (q : VecDeque) → length (to_list q) ≡ len q
unfolding to_list len
length-to_list q = length-append q.first q.second

pub to_list-push_back : (q : VecDeque) (b : ℕ) → to_list (push_back q b) ≡ to_list q ++ b ∷ []
unfolding to_list push_back
to_list-push_back q b = sym (append_assoc q.first q.second (b ∷ []))

pub to_list-push_back_all :
    (q : VecDeque) (bs : List ℕ) → to_list (push_back_all q bs) ≡ to_list q ++ bs
unfolding push_back_all
to_list-push_back_all q [] = sym (append-nil (to_list q))
to_list-push_back_all q (b ∷ bs) =
    to_list-push_back_all (push_back q b) bs
    ∙ ap (λ xs. xs ++ bs) (to_list-push_back q b)
    ∙ append_assoc (to_list q) (b ∷ []) bs

pub to_list-push_front : (q : VecDeque) (b : ℕ) → to_list (push_front q b) ≡ b ∷ to_list q
unfolding to_list push_front
to_list-push_front q b = refl

pub to_list-push_front_all :
    (q : VecDeque) (bs : List ℕ) → to_list (push_front_all q bs) ≡ reverse bs ++ to_list q
unfolding push_front_all
to_list-push_front_all q [] = refl
to_list-push_front_all q (b ∷ bs) =
    to_list-push_front_all (push_front q b) bs
    ∙ ap (◌++◌ (reverse bs)) (to_list-push_front q b)
    ∙ sym (append_assoc (reverse bs) (b ∷ []) (to_list q))
    ∙ ap (λ xs. xs ++ to_list q) (sym (reverse-cons b bs))

pub ruleset contents = (to_list-empty, to_list-push_back_all, to_list-push_front_all)
