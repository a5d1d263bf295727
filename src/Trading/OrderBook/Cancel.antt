-- ===== src/Trading/OrderBook/Cancel.antt =====
-- `OrderBook::cancel_order` of src/trading/order_book.cpp on a well-formed book.
use market_networks.Base.{
  Bool-cases, Option-cases, Text, ap, arith, if◌then◌else◌, inl, inr, none, some, text_eq, ℕ, ◌&&◌,
  ◌==◌, ◌∙◌, ◌≡◌, ◌≢◌,
}
use market_networks.Trading.OrderBook.Entries.{find, find-erase}
use market_networks.Trading.OrderBook.Queue.{
  Side, same_side, Order, Location, find_order, erase_order,
}
use market_networks.Trading.OrderBook.Valid.{location, IsValid}
use market_networks.Trading.OrderBook.Erasing.{
  find_order-some, find-it, indexed-deref, erase_at-queue, erase_at-index, erase_at-IsValid,
}
use market_networks.Trading.OrderBook.{
  OrderBook, queue_of, deref, erase_at, Cancelled, done, refused, cancel_found, cancel_at,
  cancel_order, unknown_order, foreign_order,
}

module _ (id fd : ℕ) (b : OrderBook) (v : IsValid b) where
  location-eta : (l : Location) → find id b.index ≡ some l → l ≡ location id l.queue.0 l.queue.1
  location-eta l e = λ k. record { queue = l.queue; it = find-it id b.index l v.listed e k }

  indexed_at :
      (s : Side) (i : Text) (o : Order)
      → find_order id (queue_of b s i) ≡ some o
      → find id b.index ≡ some (location id s i)
  indexed_at s i o e = (v.indexed id s i).0 (find_order-some id (queue_of b s i) o e)

  -- An indexed order is found behind its iterator, and the owner decides.
  cancel_order-indexed :
      (l : Location) (o : Order)
      → find id b.index ≡ some l
      → deref b l ≡ some o
      → cancel_order id fd b ≡ (
          if o.owner_fd == fd
          then some (done, erase_at id l b)
          else some (refused (foreign_order id), b))
  unfolding cancel_order
  cancel_order-indexed l o e d = rw (e, cancel_at, d, cancel_found)

  pub erase_at-IsValid_at : (l : Location) → find id b.index ≡ some l → IsValid (erase_at id l b)
  erase_at-IsValid_at l e =
      rw (location-eta l e)
        (erase_at-IsValid b v id l.queue.0 l.queue.1 (e ∙ ap some (location-eta l e)))

-- In a well-formed book a cancellation is defined behaviour, and what holds of the book before and of
-- the book without the order holds of the book after.
pub cancel_order-keeps :
    (id fd : ℕ) (b : OrderBook) (P : OrderBook → Type 0)
    → IsValid b
    → P b
    → ((l : Location) → find id b.index ≡ some l → P (erase_at id l b))
    → (answer : Cancelled) × (b' : OrderBook) × (cancel_order id fd b ≡ some (answer, b')) × P b'
cancel_order-keeps id fd b P v p erased = elim (Option-cases (find id b.index)) [
  | inl e ↦ (refused (unknown_order id), b, unfold cancel_order in rw (e, cancel_at), p)
  | inr (l, e) ↦ indexed l e (indexed-deref b id l v e)
]
  where
    indexed :
        (l : Location)
        → find id b.index ≡ some l
        → (o : Order) × (deref b l ≡ some o)
        → (answer : Cancelled) × (b' : OrderBook) × (cancel_order id fd b ≡ some (answer, b'))
          × P b'
    indexed l e (o, d) = elim (Bool-cases (o.owner_fd == fd)) [
      | inl own ↦
          (done, erase_at id l b, cancel_order-indexed id fd b v l o e d ∙ rw own, erased l e)
      | inr other ↦
          (refused (foreign_order id), b, cancel_order-indexed id fd b v l o e d ∙ rw other, p)
    ]

-- In a well-formed book no iterator of the index dangles: a cancellation is defined behaviour, and
-- leaves the book well formed.
pub cancel_order-IsValid :
    (id fd : ℕ) (b : OrderBook)
    → IsValid b
    → (answer : Cancelled) × (b' : OrderBook) × (cancel_order id fd b ≡ some (answer, b'))
      × IsValid b'
cancel_order-IsValid id fd b v =
    cancel_order-keeps id fd b IsValid v v (λ l e. erase_at-IsValid_at id fd b v l e)

-- A trader's resting order, cancelled by that trader, leaves its queue and the index; every other
-- order stays where it is, in the same order.
pub cancel_order-own :
    (id fd : ℕ) (b : OrderBook) (s : Side) (i : Text) (o : Order)
    → IsValid b
    → find_order id (queue_of b s i) ≡ some o
    → o.owner_fd ≡ fd
    → (b' : OrderBook) × (cancel_order id fd b ≡ some (done, b'))
      × (find id b'.index ≡ none)
      × ((t : Side) (j : Text)
          → queue_of b' t j ≡ (
              if same_side s t && text_eq j i
              then erase_order id (queue_of b s i)
              else queue_of b t j))
cancel_order-own id fd b s i o v e own =
    let l = location id s i in
    (
      erase_at id l b,
      cancel_order-indexed id fd b v l o (indexed_at id fd b v s i o e) (unfold deref in e)
          ∙ ground arith,
      rw (erase_at-index id l b, find-erase id id b.index) (ground arith),
      λ t j. erase_at-queue id l b t j,
    )

-- An order of another trader cannot be cancelled: the answer says so and the book stays as it is.
pub cancel_order-foreign :
    (id fd : ℕ) (b : OrderBook) (s : Side) (i : Text) (o : Order)
    → IsValid b
    → find_order id (queue_of b s i) ≡ some o
    → o.owner_fd ≢ fd
    → cancel_order id fd b ≡ some (refused (foreign_order id), b)
cancel_order-foreign id fd b s i o v e other =
    cancel_order-indexed id fd b v (location id s i) o (indexed_at id fd b v s i o e)
      (unfold deref in e)
    ∙ ground arith

-- An id that no queue holds, be it unknown, filled or already cancelled, is refused, and the book
-- stays as it is.
pub cancel_order-unknown :
    (id fd : ℕ) (b : OrderBook)
    → IsValid b
    → ((s : Side) (i : Text) → find_order id (queue_of b s i) ≡ none)
    → cancel_order id fd b ≡ some (refused (unknown_order id), b)
unfolding cancel_order deref
cancel_order-unknown id fd b v gone = elim (Option-cases (find id b.index)) [
  | inl e ↦ rw (e, cancel_at)
  | inr (l, e) ↦
      let (o, d) = indexed-deref b id l v e in
      let at : find_order id (queue_of b l.queue.0 l.queue.1) ≡ some o =
        rw (find-it id b.index l v.listed e) at d in
      absurd (cc (at, gone l.queue.0 l.queue.1))
]
