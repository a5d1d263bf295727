-- ===== src/Trading/OrderBook/Departure.antt =====
-- `OrderBook::remove_orders_of` of src/trading/order_book.cpp on a well-formed book.
mod Keeping
mod Round
use market_networks.Base.{
  Bool, Bool-cases, List, Option-cases, Text, [], ap, arith, false, inl, inr, keep, none, not, refl,
  some, sym, true, ℕ, ◌==◌, ◌∙◌, ◌∷◌, ◌≡◌,
}
use mathlib.Core.Option
use market_networks.Trading.OrderBook.Entries.{Index, find}
use market_networks.Trading.OrderBook.Queue.{Side, Order, Location, find_order}
use market_networks.Trading.OrderBook.Lookup.{put_queue-next_order_id, queue_of-record}
use market_networks.Trading.OrderBook.Valid.{has_order, location, Listed, IsValid}
use market_networks.Trading.OrderBook.Erasing.{indexed-deref, find_order-some}
use market_networks.Trading.OrderBook.{
  OrderBook, queue_of, deref, erase_node, remove_entries, remove_orders_of,
}
use Keeping.{is_listed, stays, keep-Queued, has_order-keep}
pub use Keeping.{foreign}
use Round.{Midway, survivor, deref-Midway, Midway-foreign, Midway-own}

-- `b` is the book before the loop, well formed.
module _ (fd : ℕ) (b : OrderBook) (v : IsValid b) where
  record Ends (es : Index) (c : OrderBook) : Type 0 where
    kept : Index
    last : OrderBook
    result : remove_entries fd es c ≡ some (kept, last)
    only_foreign : Midway fd b v [] last
    entries : (k : ℕ) → find k kept ≡ survivor fd b v (find k es)
    unique : Listed kept
    numbered : last.next_order_id ≡ c.next_order_id

  own-test : (o : Order) (x : Bool) → foreign fd o ≡ x → (o.owner_fd == fd) ≡ not x
  own-test o x h = ground arith

  -- An entry whose order belongs to somebody else stays.
  Ends-foreign :
      (k : ℕ) (l : Location) (es : Index) (c : OrderBook) (o : Order)
      → l.it ≡ k
      → find k es ≡ none
      → deref b l ≡ some o
      → deref c l ≡ some o
      → foreign fd o ≡ true
      → Ends es c
      → Ends ((k, l) ∷ es) c
  unfolding remove_entries find
  Ends-foreign k l es c o its' new d at f r = record {
    kept = (k, l) ∷ r.kept;
    last = r.last;
    result = rw (at, remove_entries, own-test o true f, r.result);
    only_foreign = r.only_foreign;
    entries = λ j. ground (arith, r.entries j, d, f);
    unique = (its', r.entries k ∙ ap (survivor fd b v) new, r.unique);
    numbered = r.numbered;
  }

  -- An entry of the client's goes, with its node.
  Ends-own :
      (k : ℕ) (l : Location) (es : Index) (c : OrderBook) (o : Order)
      → find k es ≡ none
      → deref b l ≡ some o
      → deref c l ≡ some o
      → foreign fd o ≡ false
      → Ends es (erase_node l c)
      → Ends ((k, l) ∷ es) c
  unfolding remove_entries find
  Ends-own k l es c o new d at f r = record {
    kept = r.kept;
    last = r.last;
    result = rw (at, remove_entries, own-test o false f, r.result);
    only_foreign = r.only_foreign;
    entries = λ j. ground (arith, r.entries j, d, f, new);
    unique = r.unique;
    numbered = r.numbered ∙ (unfold erase_node in put_queue-next_order_id l.queue.0 l.queue.1 _ c);
  }

  remove_entries-Ends :
      (es : Index) (c : OrderBook)
      → Midway fd b v es c
      → Listed es
      → ((k : ℕ) (l : Location) → find k es ≡ some l → find k b.index ≡ some l)
      → Ends es c
  unfolding find
  remove_entries-Ends [] c h u sub = record {
    kept = [];
    last = c;
    result = unfold remove_entries in refl;
    only_foreign = h;
    entries = λ k. refl;
    unique = tt;
    numbered = refl;
  }
  remove_entries-Ends ((k, l) ∷ es) c h u sub =
      let at : find k b.index ≡ some l = sub k l (ground arith) in
      let (o, d) = indexed-deref b k l v at in
      let sub' : (j : ℕ) (x : Location) → find j es ≡ some x → find j b.index ≡ some x =
        λ j x e. sub j x (ground (arith, u.1)) in
      elim (Bool-cases (foreign fd o)) [
        | inl f ↦
            Ends-foreign k l es c o u.0 u.1 d (deref-Midway fd b v k l es o at d c h) f
              (remove_entries-Ends es c (Midway-foreign fd b v k l es o at d c h f) u.2 sub')
        | inr f ↦ Ends-own k l es c o u.1 d (deref-Midway fd b v k l es o at d c h) f (
            remove_entries-Ends es (erase_node l c) (Midway-own fd b v k l es o at d c h u.1 f) u.2
              sub')
      ]

  keep-listed :
      (os : List Order)
      → ((id : ℕ) → has_order id os ≡ true → is_listed id b.index ≡ true)
      → keep (stays fd b.index) os ≡ os
  unfolding has_order
  keep-listed [] h = refl
  keep-listed (o ∷ os) h = ground (arith, h o.id, keep-listed os (λ id e. h id (ground arith)))

  keep-nothing_listed : (os : List Order) → keep (stays fd []) os ≡ keep (foreign fd) os
  unfolding find
  keep-nothing_listed [] = refl
  keep-nothing_listed (o ∷ os) = ground (arith, keep-nothing_listed os)

  ends : Ends b.index b
  ends =
      remove_entries-Ends b.index b
        (λ t j. sym (keep-listed (queue_of b t j) (λ id e. ground (arith, v.indexed id t j))))
        v.listed (λ k l e. e)

  open ends use {kept, last, result, only_foreign, entries, unique, numbered}

  abbrev left : OrderBook
  left = record last { index = kept }

  left-queue : (t : Side) (j : Text) → queue_of left t j ≡ keep (foreign fd) (queue_of b t j)
  left-queue t j =
      queue_of-record t j last.next_order_id kept last
      ∙ only_foreign t j
      ∙ keep-nothing_listed (queue_of b t j)

  left-has_order :
      (k : ℕ) (t : Side) (j : Text)
      → has_order k (queue_of left t j)
        ≡ (elim (find_order k (queue_of b t j)) [ none ↦ false | some o ↦ foreign fd o ])
  left-has_order k t j =
      rw (left-queue t j)
        (has_order-keep (foreign fd) t j k 0 b.next_order_id (queue_of b t j) (v.queued t j))

  left-to_find :
      (k : ℕ) (t : Side) (j : Text)
      → has_order k (queue_of left t j) ≡ true
      → find k kept ≡ some (location k t j)
  unfolding deref
  left-to_find k t j h =
      let q = queue_of b t j in
      let held = rw (left-has_order k t j) at h in
      entries k ∙ elim (Option-cases (find_order k q)) [
        | inl e ↦ absurd (ground arith)
        | inr (o, e) ↦ ground (arith, v.indexed k t j, find_order-some k q o e)
      ]

  left-of_find :
      (k : ℕ) (t : Side) (j : Text)
      → find k kept ≡ some (location k t j)
      → has_order k (queue_of left t j) ≡ true
  unfolding deref
  left-of_find k t j h = left-has_order k t j ∙ ground (arith, entries k)

  left-IsValid : IsValid left
  left-IsValid = record {
    queued = λ t j.
        rw (left-queue t j, numbered)
          (keep-Queued (foreign fd) t j 0 b.next_order_id (queue_of b t j) (v.queued t j));
    indexed = λ k t j. (left-to_find k t j, left-of_find k t j);
    listed = unique;
  }

-- When a client leaves a well-formed book, the removal is defined behaviour, every order of the client
-- is gone from every queue, all other orders stay in their order, and the book is well formed: a
-- reused descriptor inherits nothing.
pub remove_orders_of-keep :
    (fd : ℕ) (b : OrderBook)
    → IsValid b
    → (b' : OrderBook) × (remove_orders_of fd b ≡ some b')
      × ((s : Side) (i : Text) → queue_of b' s i ≡ keep (foreign fd) (queue_of b s i))
      × IsValid b'
remove_orders_of-keep fd b v = (
  left fd b v,
  unfold remove_orders_of in rw ((ends fd b v).result),
  left-queue fd b v,
  left-IsValid fd b v,
)
