-- ===== src/Trading/OrderBook/Departure/Round.antt =====
-- The book in the middle of the loop of `OrderBook::remove_orders_of` in src/trading/order_book.cpp.
use market_networks.Base.{
  Option, Text, ap, arith, false, if◌then◌else◌, inl, inr, keep, none, some, text_eq, text_eq_iff,
  true, ℕ, ◌&&◌, ◌∙◌, ◌∷◌, ◌≡◌, ◌⊎◌,
}
use market_networks.Trading.OrderBook.Entries.{Index, find}
use market_networks.Trading.OrderBook.Queue.{
  Side, same_side, same_side_iff, Order, Location, find_order, erase_order,
}
use market_networks.Trading.OrderBook.Lookup.{queue_of-put_queue}
use market_networks.Trading.OrderBook.Valid.{has_order, location, IsValid}
use market_networks.Trading.OrderBook.Erasing.{find-it, find_order-id}
use market_networks.Trading.OrderBook.{OrderBook, queue_of, deref, erase_node}
use market_networks.Trading.OrderBook.Departure.Keeping.{
  is_listed, foreign, stays, find_order-keep, keep-absent, keep-foreign, erase_order-keep,
}

erase_node-queue :
    (l : Location) (b : OrderBook) (t : Side) (j : Text)
    → queue_of (erase_node l b) t j ≡ (
        if same_side l.queue.0 t && text_eq j l.queue.1
        then erase_order l.it (queue_of b l.queue.0 l.queue.1)
        else queue_of b t j)
unfolding erase_node
erase_node-queue l b t j = queue_of-put_queue l.queue.0 t l.queue.1 j _ b

-- `b` is the book before the loop, well formed.
module _ (fd : ℕ) (b : OrderBook) (v : IsValid b) where
  -- The book in the middle of the loop, `es` still to come.
  abbrev pub Midway : Index → OrderBook → Type 0
  Midway es c = (t : Side) (j : Text) → queue_of c t j ≡ keep (stays fd es) (queue_of b t j)

  -- What an entry becomes.
  abbrev pub survivor : Option Location → Option Location
  survivor none = none
  survivor (some l) = elim (deref b l) [
    | none ↦ none
    | some o ↦ if foreign fd o then some l else none
  ]

  module _ (k : ℕ) (l : Location) (es : Index) (o : Order) (at : find k b.index ≡ some l)
      (d : deref b l ≡ some o) where
    abbrev s : Side
    s = l.queue.0

    abbrev i : Text
    i = l.queue.1

    its : l.it ≡ k
    its = find-it k b.index l v.listed at

    found : find_order k (queue_of b s i) ≡ some o
    unfolding deref
    found = rw its at d

    place : (t : Side) (j : Text) → l ≡ location k t j → (s ≡ t) × (i ≡ j)
    place t j e = (ap (λ x. x.queue.0) e, ap (λ x. x.queue.1) e)

    absent :
        (t : Side) (j : Text)
        → (same_side s t && text_eq j i) ≡ false
        → has_order k (queue_of b t j) ≡ false
    absent t j apart = ground (
      arith,
      v.indexed k t j,
      λ (e : l ≡ location k t j). place t j e,
      same_side_iff s t,
      text_eq_iff j i,
    )

    listed_here : is_listed k ((k, l) ∷ es) ≡ true
    listed_here = unfold find in ground arith

    pub deref-Midway : (c : OrderBook) → Midway ((k, l) ∷ es) c → deref c l ≡ some o
    unfolding deref
    deref-Midway c h =
        rw (its, h s i)
          (find_order-keep (stays fd ((k, l) ∷ es)) k (queue_of b s i) o found
            (ground (arith, find_order-id k (queue_of b s i) o found, listed_here)))

    here_or_absent :
        (t : Side) (j : Text)
        → ((same_side s t && text_eq j i) ≡ true) × (queue_of b t j ≡ queue_of b s i)
          ⊎ ((same_side s t && text_eq j i) ≡ false) × (has_order k (queue_of b t j) ≡ false)
    here_or_absent t j = ground (arith, absent t j, same_side_iff s t, text_eq_iff j i)

    pub Midway-foreign :
        (c : OrderBook) → Midway ((k, l) ∷ es) c → foreign fd o ≡ true → Midway es c
    Midway-foreign c h f t j = h t j ∙ elim (here_or_absent t j) [
      | inl (_, e) ↦
          rw e
            (keep-foreign fd k l es s i 0 b.next_order_id (queue_of b s i) o (v.queued s i) found f)
      | inr (_, e) ↦ keep-absent fd k l es (queue_of b t j) e
    ]

    pub Midway-own :
        (c : OrderBook)
        → Midway ((k, l) ∷ es) c
        → find k es ≡ none
        → foreign fd o ≡ false
        → Midway es (erase_node l c)
    Midway-own c h new f t j = erase_node-queue l c t j ∙ elim (here_or_absent t j) [
      | inl (same, e) ↦
          rw (same, its, h s i, e)
            (erase_order-keep fd k l es s i 0 b.next_order_id (queue_of b s i) o (v.queued s i)
              found f new)
      | inr (apart, e) ↦ rw (apart, h t j) (keep-absent fd k l es (queue_of b t j) e)
    ]
