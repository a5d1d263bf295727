-- ===== src/Server/Sets.antt =====
-- The sets of src/exchange_server.cpp as lists: membership after each operation.
use market_networks.Base.{
  Bool, List, Text, [], arith, false, if_cases, if◌then◌else◌, refl, text_eq, text_eq_iff, ℕ, ◌&&◌,
  ◌++◌, ◌==◌, ◌||◌, ◌∙◌, ◌∷◌, ◌≡◌,
}
use market_networks.Server.State.{
  has_text, erase_text, insert_text, has_fd, erase_fd, insert_fd, put_subscribers,
}
use market_networks.Server.Output.{unsubscribe_all}

-- No member is there twice.
abbrev pub IsDistinct : List ℕ → Type 0
IsDistinct [] = Unit {0}
IsDistinct (j ∷ js) = (has_fd j js ≡ false) × IsDistinct js

pub has_fd-erase_fd :
    (j k : ℕ) (l : List ℕ) → has_fd j (erase_fd k l) ≡ (if k == j then false else has_fd j l)
unfolding has_fd erase_fd
has_fd-erase_fd j k [] = ground arith
has_fd-erase_fd j k (i ∷ l) = ground (arith, has_fd-erase_fd j k l)

has_fd-append : (j k : ℕ) (l : List ℕ) → has_fd j (l ++ k ∷ []) ≡ (k == j || has_fd j l)
unfolding has_fd
has_fd-append j k [] = refl
has_fd-append j k (i ∷ l) = ground (arith, has_fd-append j k l)

pub has_fd-insert_fd : (j k : ℕ) (l : List ℕ) → has_fd j (insert_fd k l) ≡ (k == j || has_fd j l)
unfolding insert_fd
has_fd-insert_fd j k l = ground (arith, has_fd-append j k l)

pub has_text-erase_text :
    (t u : Text) (us : List Text)
    → has_text t (erase_text u us) ≡ (if text_eq t u then false else has_text t us)
unfolding has_text erase_text
has_text-erase_text t u [] = ground arith
has_text-erase_text t u (v ∷ us) =
    ground (arith, has_text-erase_text t u us, text_eq_iff t u, text_eq_iff v u, text_eq_iff v t)

has_text-append :
    (t u : Text) (us : List Text) → has_text t (us ++ u ∷ []) ≡ (text_eq u t || has_text t us)
unfolding has_text
has_text-append t u [] = refl
has_text-append t u (v ∷ us) = ground (arith, has_text-append t u us)

pub has_text-insert_text :
    (t u : Text) (us : List Text) → has_text t (insert_text u us) ≡ (text_eq t u || has_text t us)
unfolding insert_text
has_text-insert_text t u us =
    ground (arith, has_text-append t u us, text_eq_iff t u, text_eq_iff u t)

pub has_fd-unsubscribe_all :
    (j k : ℕ) (i : Text) (is : List Text) (m : Text → List ℕ)
    → has_fd j (unsubscribe_all k is m i)
      ≡ (if k == j && has_text i is then false else has_fd j (m i))
unfolding unsubscribe_all has_text put_subscribers
has_fd-unsubscribe_all j k i [] m = ground arith
has_fd-unsubscribe_all j k i (h ∷ is) m = ground (
  arith,
  has_fd-unsubscribe_all j k i is (put_subscribers h (erase_fd k (m h)) m),
  has_fd-erase_fd j k (m h),
  text_eq_iff i h,
  text_eq_iff h i,
)

erase_fd-IsDistinct : (k : ℕ) (l : List ℕ) → IsDistinct l → IsDistinct (erase_fd k l)
unfolding erase_fd
erase_fd-IsDistinct k [] d = tt
erase_fd-IsDistinct k (j ∷ js) (new, d) =
    if_cases IsDistinct (j == k) (λ _. erase_fd-IsDistinct k js d)
      (λ _. (has_fd-erase_fd j k js ∙ ground arith, erase_fd-IsDistinct k js d))

append-IsDistinct :
    (k : ℕ) (l : List ℕ) → has_fd k l ≡ false → IsDistinct l → IsDistinct (l ++ k ∷ [])
unfolding has_fd
append-IsDistinct k [] h d = (refl, tt)
append-IsDistinct k (j ∷ js) h (new, d) =
    (has_fd-append j k js ∙ ground arith, append-IsDistinct k js (ground arith) d)

insert_fd-IsDistinct : (k : ℕ) (l : List ℕ) → IsDistinct l → IsDistinct (insert_fd k l)
unfolding insert_fd
insert_fd-IsDistinct k l d =
    if_cases IsDistinct (has_fd k l) (λ _. d) (λ new. append-IsDistinct k l new d)

-- A set of the map is replaced, then all those of a client's subscriptions.
put_subscribers-IsDistinct :
    (i : Text) (fds : List ℕ) (m : Text → List ℕ)
    → IsDistinct fds
    → ((j : Text) → IsDistinct (m j))
    → (j : Text) → IsDistinct (put_subscribers i fds m j)
unfolding put_subscribers
put_subscribers-IsDistinct i fds m d h j = if_cases IsDistinct (text_eq j i) (λ _. d) (λ _. h j)

pub unsubscribe_all-IsDistinct :
    (k : ℕ) (is : List Text) (m : Text → List ℕ)
    → ((j : Text) → IsDistinct (m j))
    → (j : Text) → IsDistinct (unsubscribe_all k is m j)
unfolding unsubscribe_all
unsubscribe_all-IsDistinct k [] m h = h
unsubscribe_all-IsDistinct k (i ∷ is) m h =
    unsubscribe_all-IsDistinct k is (put_subscribers i (erase_fd k (m i)) m)
      (put_subscribers-IsDistinct i (erase_fd k (m i)) m (erase_fd-IsDistinct k (m i) (h i)) h)

-- A subscription comes or goes.
pub subscription-IsDistinct :
    (b : Bool) (k : ℕ) (i : Text) (m : Text → List ℕ)
    → ((j : Text) → IsDistinct (m j))
    → (j : Text)
    → IsDistinct (put_subscribers i (if b then insert_fd k (m i) else erase_fd k (m i)) m j)
subscription-IsDistinct b k i m h =
    put_subscribers-IsDistinct i (if b then insert_fd k (m i) else erase_fd k (m i)) m
      (if_cases IsDistinct b (λ _. insert_fd-IsDistinct k (m i) (h i))
        (λ _. erase_fd-IsDistinct k (m i) (h i)))
      h
