-- ===== src/Trading/OrderBook/Erasing.antt =====
-- Erasing one resting order from a well-formed book: `erase_at` of src/trading/order_book.cpp.
use market_networks.Base.{
  Bool, List, Option-cases, Text, [], arith, eq_of_text_eq, false, if_cases, if◌then◌else◌, inl,
  inr, none, refl, some, suc, text_eq, text_eq_iff, true, ℕ, ◌&&◌, ◌==◌, ◌∙◌, ◌∷◌, ◌≡◌,
}
use market_networks.Trading.OrderBook.Entries.{Index, find, erase, find-erase}
use market_networks.Trading.OrderBook.Queue.{
  Side, same_side, same_side_iff, Order, Location, find_order, erase_order,
}
use market_networks.Trading.OrderBook.Lookup.{
  queue_of-put_queue, put_queue-index, put_queue-next_order_id, queue_of-record,
}
use market_networks.Trading.OrderBook.Valid.{
  Queued, has_order, location, Listed, IsValid, location_inj, Queued-weaken, Listed-erase,
  has_order-below,
}
use market_networks.Trading.OrderBook.{OrderBook, queue_of, deref, erase_node, erase_at}

pub find_order-id : (id : ℕ) (os : List Order) (o : Order) → find_order id os ≡ some o → o.id ≡ id
unfolding find_order
find_order-id id [] o h = cc
find_order-id id (x ∷ xs) o h = ground (arith, find_order-id id xs o)

pub find_order-none : (id : ℕ) (os : List Order) → find_order id os ≡ none → has_order id os ≡ false
unfolding find_order has_order
find_order-none id [] h = refl
find_order-none id (x ∷ xs) h = ground (arith, find_order-none id xs)

pub find_order-some :
    (id : ℕ) (os : List Order) (o : Order) → find_order id os ≡ some o → has_order id os ≡ true
unfolding find_order has_order
find_order-some id [] o h = cc
find_order-some id (x ∷ xs) o h = ground (arith, find_order-some id xs o)

-- An order that is there is found.
pub find_order-has_order :
    (id : ℕ) (os : List Order) → has_order id os ≡ true → (o : Order) × (find_order id os ≡ some o)
find_order-has_order id os h = elim (Option-cases (find_order id os)) [
  | inl e ↦ absurd (cc (find_order-none id os e))
  | inr found ↦ found
]

pub erase_order-Queued :
    (s : Side) (i : Text) (id lo hi : ℕ) (os : List Order)
    → Queued s i lo hi os
    → Queued s i lo hi (erase_order id os)
unfolding erase_order
erase_order-Queued s i id lo hi [] v = tt
erase_order-Queued s i id lo hi (o ∷ os) v = ground (
  arith,
  erase_order-Queued s i id (suc o.id) hi os v.5,
  Queued-weaken s i (suc o.id) lo hi hi os (omega arith) (omega arith) v.5,
)

pub has_order-erase_order :
    (s : Side) (i : Text) (id k lo hi : ℕ) (os : List Order)
    → Queued s i lo hi os
    → has_order k (erase_order id os) ≡ (if id == k then false else has_order k os)
unfolding erase_order has_order
has_order-erase_order s i id k lo hi [] v = ground arith
has_order-erase_order s i id k lo hi (o ∷ os) v = ground (
  arith,
  has_order-erase_order s i id k (suc o.id) hi os v.5,
  has_order-below s i k (suc o.id) hi os v.5,
)

-- In a well-formed book an entry of the index is the place of a resting order.
pub find-it : (id : ℕ) (m : Index) (l : Location) → Listed m → find id m ≡ some l → l.it ≡ id
unfolding find
find-it id [] l v h = cc
find-it id ((k, x) ∷ m) l v h = ground (arith, find-it id m l v.2)

pub indexed-deref :
    (b : OrderBook) (id : ℕ) (l : Location)
    → IsValid b
    → find id b.index ≡ some l
    → (o : Order) × (deref b l ≡ some o)
unfolding deref
indexed-deref b id l v h =
    let it : l.it ≡ id = find-it id b.index l v.listed h in
    rw it (
      find_order-has_order id (queue_of b l.queue.0 l.queue.1)
        ((v.indexed id l.queue.0 l.queue.1).1 (ground arith)))

pub erase_at-queue :
    (id : ℕ) (l : Location) (b : OrderBook) (t : Side) (j : Text)
    → queue_of (erase_at id l b) t j ≡ (
        if same_side l.queue.0 t && text_eq j l.queue.1
        then erase_order l.it (queue_of b l.queue.0 l.queue.1)
        else queue_of b t j)
unfolding erase_at
erase_at-queue id l b t j =
    let q = erase_order l.it (queue_of b l.queue.0 l.queue.1) in
    let e = erase_node l b in
    queue_of-record t j e.next_order_id (erase id e.index) e
    ∙ (unfold erase_at in queue_of-put_queue l.queue.0 t l.queue.1 j q b)

pub erase_at-index :
    (id : ℕ) (l : Location) (b : OrderBook) → (erase_at id l b).index ≡ erase id b.index
unfolding erase_at
erase_at-index id l b = rw put_queue-index

erase_at-next_order_id :
    (id : ℕ) (l : Location) (b : OrderBook) → (erase_at id l b).next_order_id ≡ b.next_order_id
unfolding erase_at
erase_at-next_order_id id l b = rw put_queue-next_order_id

module _ (b : OrderBook) (v : IsValid b) (id : ℕ) (s : Side) (i : Text)
    (h : find id b.index ≡ some (location id s i)) where
  abbrev rest : OrderBook
  rest = erase_at id (location id s i) b

  abbrev own : Side → Text → Bool
  own t j = same_side s t && text_eq j i

  erase_at-Queued : (t : Side) (j : Text) → Queued t j 0 rest.next_order_id (queue_of rest t j)
  erase_at-Queued t j =
      rw (erase_at-queue id (location id s i) b t j, erase_at-next_order_id id (location id s i) b)
        (if_cases (Queued t j 0 b.next_order_id) (own t j)
          (λ e.
            let side_eq : s ≡ t = (same_side_iff s t).0 (ground arith) in
            let text : j ≡ i = eq_of_text_eq j i (ground arith) in
            rw (← side_eq, text)
              (erase_order-Queued s i id 0 b.next_order_id (queue_of b s i) (v.queued s i)))
          (λ _. v.queued t j))

  erase_at-has_order :
      (k : ℕ) (t : Side) (j : Text)
      → has_order k (queue_of rest t j)
        ≡ (if own t j && id == k then false else has_order k (queue_of b t j))
  erase_at-has_order k t j = rw (erase_at-queue id (location id s i) b t j) (
      ground (
        arith,
        has_order-erase_order s i id k 0 b.next_order_id (queue_of b s i) (v.queued s i),
        same_side_iff s t,
        text_eq_iff j i,
      ))

  erase_at-to_find :
      (k : ℕ) (t : Side) (j : Text)
      → has_order k (queue_of rest t j) ≡ true
      → find k rest.index ≡ some (location k t j)
  erase_at-to_find k t j e = rw (erase_at-index id (location id s i) b) (
      ground (
        arith,
        rw (erase_at-has_order k t j) at e,
        find-erase id k b.index,
        v.indexed k t j,
        λ (same : location id s i ≡ location id t j). location_inj id s t i j same,
        same_side_iff s t,
        text_eq_iff j i,
      ))

  erase_at-of_find :
      (k : ℕ) (t : Side) (j : Text)
      → find k rest.index ≡ some (location k t j)
      → has_order k (queue_of rest t j) ≡ true
  erase_at-of_find k t j e = rw (erase_at-has_order k t j) (
      ground (
        arith,
        rw (erase_at-index id (location id s i) b) at e,
        find-erase id k b.index,
        v.indexed k t j,
      ))

  pub erase_at-IsValid : IsValid rest
  erase_at-IsValid = record {
    queued = erase_at-Queued;
    indexed = λ k t j. (erase_at-to_find k t j, erase_at-of_find k t j);
    listed = rw (erase_at-index id (location id s i) b) (Listed-erase id b.index v.listed);
  }
