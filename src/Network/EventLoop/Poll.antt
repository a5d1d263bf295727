-- ===== src/Network/EventLoop/Poll.antt =====
-- The poll backend of src/network/event_loop.cpp: `poll_index_` and `pollfds_` stay consistent, and
-- together they are a finite map from descriptors to interests.
use market_networks.Base.{
  Bool, Bool-cases, List, Option, Option-cases, arith, get_elem?, if◌then◌else◌, inl, inr, length,
  ltb, none, some, ℕ, ◌-◌, ◌<◌, ◌==◌, ◌↔◌, ◌≡◌, ◌≢◌,
}
use market_networks.Base.Assoc.{find, erase, insert, find-erase, find-insert}
use market_networks.Network.EventLoop.{
  Backend, EventLoop, event_loop, Mask, PollFd, poll_mask, set, pop_back, poll_push, poll_set,
  poll_update, swap_last, poll_remove, KeventAnswer,
}
use market_networks.Network.EventLoop.Vector.{
  get_elem?-set_mask, get_elem?-append, get_elem?-set, get_elem?-pop_back, get_elem?-past,
  get_elem?-within, length-set,
}

abbrev fd_at : List PollFd → ℕ → Option ℕ
fd_at xs i = elim (get_elem? xs i) [ none ↦ none | some e ↦ some e.fd ]

abbrev mask_at : List PollFd → ℕ → Option Mask
mask_at xs i = elim (get_elem? xs i) [ none ↦ none | some e ↦ some e.events ]

-- `poll_index_[fd] = i` exactly if entry i is the descriptor's.
abbrev pub Indexed : EventLoop → Type 0
Indexed l = (fd i : ℕ) → (find fd l.poll_index ≡ some i) ↔ (fd_at l.pollfds i ≡ some fd)

-- The registered interest in a descriptor.
abbrev pub interest : EventLoop → ℕ → Option Mask
interest l fd = elim (find fd l.poll_index) [ none ↦ none | some i ↦ mask_at l.pollfds i ]

-- A new loop is consistent: it has no entries.
pub event_loop-Indexed :
    (k o : Bool) (wanted : Backend) (answers : List KeventAnswer)
    → Indexed (event_loop k o wanted answers)
unfolding event_loop find
event_loop-Indexed k o wanted answers fd i = ((λ e. cc), λ e. cc)

module _ (fd : ℕ) (r w : Bool) (l : EventLoop) (v : Indexed l) where
  poll_push-Indexed : find fd l.poll_index ≡ none → Indexed (poll_push fd r w l)
  unfolding poll_push
  poll_push-Indexed new k i = ground (
    arith,
    v k i,
    v k (length l.pollfds),
    v fd i,
    find-insert fd k (length l.pollfds) l.poll_index,
    get_elem?-append l.pollfds (record { fd = fd; events = poll_mask r w }) i,
    get_elem?-past l.pollfds (length l.pollfds),
  )

  poll_set-Indexed : (idx : ℕ) → find fd l.poll_index ≡ some idx → Indexed (poll_set idx r w l)
  unfolding poll_set
  poll_set-Indexed idx at k i =
      ground (arith, v k i, get_elem?-set_mask l.pollfds idx i (poll_mask r w))

  poll_push-interest :
      (k : ℕ)
      → find fd l.poll_index ≡ none
      → interest (poll_push fd r w l) k ≡ (if fd == k then some (poll_mask r w) else interest l k)
  unfolding poll_push
  poll_push-interest k new = elim (Option-cases (find k l.poll_index)) [
    | inl e ↦ ground (
      arith,
      find-insert fd k (length l.pollfds) l.poll_index,
      get_elem?-append l.pollfds (record { fd = fd; events = poll_mask r w }) (length l.pollfds),
    )
    | inr (i, e) ↦ ground (
      arith,
      v k i,
      find-insert fd k (length l.pollfds) l.poll_index,
      get_elem?-append l.pollfds (record { fd = fd; events = poll_mask r w }) i,
      get_elem?-past l.pollfds i,
    )
  ]

  poll_set-interest :
      (idx k : ℕ)
      → find fd l.poll_index ≡ some idx
      → interest (poll_set idx r w l) k ≡ (if fd == k then some (poll_mask r w) else interest l k)
  unfolding poll_set
  poll_set-interest idx k at = elim (Option-cases (find k l.poll_index)) [
    | inl e ↦ ground arith
    | inr (i, e) ↦
        ground (arith, v k i, v fd idx, v k idx, get_elem?-set_mask l.pollfds idx i (poll_mask r w))
  ]

-- `poll_update` keeps the index and the vector consistent, and changes the interest in the given
-- descriptor only, which it registers if need be.
pub poll_update-interest :
    (fd : ℕ) (r w : Bool) (l : EventLoop)
    → Indexed l
    → Indexed (poll_update fd r w l)
      × ((k : ℕ)
          → interest (poll_update fd r w l) k
            ≡ (if fd == k then some (poll_mask r w) else interest l k))
poll_update-interest fd r w l v = elim (Option-cases (find fd l.poll_index)) [
  | inl new ↦
      unfold poll_update in
      rw (new, poll_update)
        (poll_push-Indexed fd r w l v new, λ k. poll_push-interest fd r w l v k new)
  | inr (idx, at) ↦
      unfold poll_update in
      rw (at, poll_update)
        (poll_set-Indexed fd r w l v idx at, λ k. poll_set-interest fd r w l v idx k at)
]

module _ (fd : ℕ) (l : EventLoop) (v : Indexed l) (idx : ℕ)
    (at : find fd l.poll_index ≡ some idx) where
  abbrev last : ℕ
  last = length l.pollfds - 1

  abbrev gone_last : EventLoop
  gone_last = record l { pollfds = pop_back l.pollfds; poll_index = erase fd l.poll_index }

  abbrev gone_swapped : PollFd → EventLoop
  gone_swapped e = record l {
    pollfds = pop_back (set l.pollfds idx e);
    poll_index = erase fd (insert e.fd idx l.poll_index);
  }

  abbrev Removed : EventLoop → Type 0
  Removed m = Indexed m × ((k : ℕ) → interest m k ≡ (if fd == k then none else interest l k))

  gone_last-Removed : idx ≡ last → Removed gone_last
  gone_last-Removed here = (
    (λ k i. ground (
      arith,
      v k i,
      v fd i,
      v fd idx,
      find-erase fd k l.poll_index,
      get_elem?-pop_back l.pollfds i,
    )),
    λ k. elim (Option-cases (find k l.poll_index)) [
      | inl e ↦ ground (arith, find-erase fd k l.poll_index)
      | inr (i, e) ↦ ground (
        arith,
        v k i,
        v fd i,
        v fd idx,
        find-erase fd k l.poll_index,
        get_elem?-pop_back l.pollfds i,
      )
    ],
  )

  gone_swapped-Removed :
      (e : PollFd) → idx ≢ last → get_elem? l.pollfds last ≡ some e → Removed (gone_swapped e)
  gone_swapped-Removed e apart end = (
    (λ k i. ground (
      arith,
      v k i,
      v fd idx,
      v k idx,
      v e.fd last,
      v e.fd i,
      find-erase fd k (insert e.fd idx l.poll_index),
      find-insert e.fd k idx l.poll_index,
      get_elem?-pop_back (set l.pollfds idx e) i,
      get_elem?-set l.pollfds idx i e,
      length-set l.pollfds idx e,
    )),
    λ k. elim (Option-cases (find k l.poll_index)) [
      | inl none_there ↦ ground (
        arith,
        v e.fd last,
        find-erase fd k (insert e.fd idx l.poll_index),
        find-insert e.fd k idx l.poll_index,
      )
      | inr (i, there) ↦ ground (
        arith,
        v k i,
        v fd idx,
        v k idx,
        v e.fd last,
        v e.fd i,
        find-erase fd k (insert e.fd idx l.poll_index),
        find-insert e.fd k idx l.poll_index,
        get_elem?-pop_back (set l.pollfds idx e) i,
        get_elem?-set l.pollfds idx i e,
        get_elem?-pop_back (set l.pollfds idx e) idx,
        get_elem?-set l.pollfds idx idx e,
        length-set l.pollfds idx e,
      )
    ],
  )

  within : idx < length l.pollfds
  within = elim (Bool-cases (ltb idx (length l.pollfds))) [
    | inl h ↦ ground arith
    | inr h ↦ absurd (ground (arith, v fd idx, get_elem?-past l.pollfds idx))
  ]

  found-Removed : (m : EventLoop) × (poll_remove fd l ≡ some m) × Removed m
  unfolding poll_remove
  found-Removed = elim (Bool-cases (idx == last)) [
    | inl here ↦
        (gone_last, rw (at, poll_remove, here, swap_last), gone_last-Removed (ground arith))
    | inr apart ↦
        let (e, end) = get_elem?-within l.pollfds last (omega (arith, within)) in
        (
          gone_swapped e,
          rw (at, poll_remove, apart, swap_last, end),
          gone_swapped-Removed e (ground arith) end,
        )
  ]

-- Removal by swapping with the last entry reads inside the vector, keeps the index and the vector
-- consistent, ends the interest in the given descriptor, and changes no other.
pub poll_remove-interest :
    (fd : ℕ) (l : EventLoop)
    → Indexed l
    → (m : EventLoop) × (poll_remove fd l ≡ some m)
      × Indexed m
      × ((k : ℕ) → interest m k ≡ (if fd == k then none else interest l k))
poll_remove-interest fd l v = elim (Option-cases (find fd l.poll_index)) [
  | inl absent ↦ (l, unfold poll_remove in rw (absent, poll_remove), v, λ k. ground arith)
  | inr (idx, at) ↦
      let (m, e, (consistent, same)) = found-Removed fd l v idx at in (m, e, consistent, same)
]
