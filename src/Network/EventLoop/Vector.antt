-- ===== src/Network/EventLoop/Vector.antt =====
-- `pollfds_` of src/network/event_loop.cpp as a vector: reading after each kind of write.
use market_networks.Base.{
  List, [], ap, arith, get_elem?, if◌then◌else◌, length, none, refl, some, suc, zero, ℕ, ◌++◌, ◌-◌,
  ◌<◌, ◌==◌, ◌∷◌, ◌≡◌, ◌≤◌,
}
use market_networks.Network.EventLoop.{PollFd, Mask, set, set_mask, pop_back}

pub get_elem?-set_mask :
    (xs : List PollFd) (i j : ℕ) (m : Mask)
    → get_elem? (set_mask xs i m) j ≡ (
        if i == j
        then (elim (get_elem? xs j) [ none ↦ none | some e ↦ some (record e { events = m }) ])
        else get_elem? xs j)
unfolding set_mask
get_elem?-set_mask [] i j m = ground arith
get_elem?-set_mask (x ∷ xs) zero zero m = refl
get_elem?-set_mask (x ∷ xs) zero (suc j) m = ground arith
get_elem?-set_mask (x ∷ xs) (suc i) zero m = ground arith
get_elem?-set_mask (x ∷ xs) (suc i) (suc j) m = ground (arith, get_elem?-set_mask xs i j m)

pub get_elem?-append :
    (xs : List PollFd) (e : PollFd) (j : ℕ)
    → get_elem? (xs ++ e ∷ []) j ≡ (if length xs == j then some e else get_elem? xs j)
get_elem?-append [] e zero = refl
get_elem?-append [] e (suc j) = ground arith
get_elem?-append (x ∷ xs) e zero = ground arith
get_elem?-append (x ∷ xs) e (suc j) = ground (arith, get_elem?-append xs e j)

pub get_elem?-set :
    (xs : List PollFd) (i j : ℕ) (e : PollFd)
    → get_elem? (set xs i e) j ≡ (
        if i == j
        then (elim (get_elem? xs j) [ none ↦ none | some _ ↦ some e ])
        else get_elem? xs j)
unfolding set
get_elem?-set [] i j e = ground arith
get_elem?-set (x ∷ xs) zero zero e = refl
get_elem?-set (x ∷ xs) zero (suc j) e = ground arith
get_elem?-set (x ∷ xs) (suc i) zero e = ground arith
get_elem?-set (x ∷ xs) (suc i) (suc j) e = ground (arith, get_elem?-set xs i j e)

pub get_elem?-pop_back :
    (xs : List PollFd) (j : ℕ)
    → get_elem? (pop_back xs) j ≡ (if length xs - 1 == j then none else get_elem? xs j)
unfolding pop_back
get_elem?-pop_back [] j = ground arith
get_elem?-pop_back (x ∷ []) zero = refl
get_elem?-pop_back (x ∷ []) (suc j) = ground arith
get_elem?-pop_back (x ∷ y ∷ xs) zero = ground arith
get_elem?-pop_back (x ∷ y ∷ xs) (suc j) = ground (arith, get_elem?-pop_back (y ∷ xs) j)

pub get_elem?-past : (xs : List PollFd) (j : ℕ) → length xs ≤ j → get_elem? xs j ≡ none
get_elem?-past [] j h = refl
get_elem?-past (x ∷ xs) zero h = absurd (omega arith)
get_elem?-past (x ∷ xs) (suc j) h = get_elem?-past xs j (omega arith)

pub get_elem?-within :
    (xs : List PollFd) (j : ℕ) → j < length xs → (e : PollFd) × (get_elem? xs j ≡ some e)
get_elem?-within [] j h = absurd (omega arith)
get_elem?-within (x ∷ xs) zero h = (x, refl)
get_elem?-within (x ∷ xs) (suc j) h = get_elem?-within xs j (omega arith)

pub length-set : (xs : List PollFd) (i : ℕ) (e : PollFd) → length (set xs i e) ≡ length xs
unfolding set
length-set [] i e = refl
length-set (x ∷ xs) zero e = refl
length-set (x ∷ xs) (suc i) e = ap suc (length-set xs i e)
