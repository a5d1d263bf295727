-- ===== src/Network/EventLoop.antt =====
-- src/network/event_loop.hpp and event_loop.cpp: readiness notification over poll(2) or kqueue(2).
-- The kernel's answers to `kevent` are a list in the state; when it is used up, the calls succeed.
use market_networks.Base.{
  Bool, List, Option, Text, [], codes, false, get_elem?, if◌then◌else◌, length, none, not, some,
  suc, text_eq, true, zero, ℕ, ◌&&◌, ◌++◌, ◌-◌, ◌==◌, ◌∷◌,
}
mod Vector
pub mod Poll
pub mod Registered
pub mod Registry
pub mod Filters
pub mod Waiting
use market_networks.Base.Assoc.{Assoc, find, erase, insert}

pub data Backend : Type 0 where
  poll kqueue : Backend

-- One readiness notification.
pub record Event : Type 0 where
  pub fd : ℕ
  pub readable : Bool
  pub writable : Bool
  pub hangup : Bool

-- The bits POLLIN and POLLOUT of a `pollfd`'s `events`.
pub record Mask : Type 0 where
  pub pollin : Bool
  pub pollout : Bool

pub record PollFd : Type 0 where
  pub fd : ℕ
  pub events : Mask

pub data KeventAnswer : Type 0 where
  applied no_entry refused : KeventAnswer

-- An element of the changelist: EV_ADD or EV_DELETE of a filter.
pub data Change : Type 0 where
  read_filter write_filter : ℕ → Bool → Change

pub record EventLoop : Type 0 where
  pub backend : Backend
  pub pollfds : List PollFd
  pub poll_index : Assoc ℕ
  pub kq_interest : Assoc (Bool × Bool)
  pub kevent_answers : List KeventAnswer
  pub kevent_changes : List (List Change)

-- EXCHANGE_HAVE_KQUEUE is an argument.
unfoldable pub default_backend : Bool → Backend
default_backend have_kqueue = if have_kqueue then kqueue else poll

unfoldable pub parse_backend : Bool → Text → Backend × Bool
unfolding default_backend text_eq
parse_backend have_kqueue name =
    if text_eq name (codes "poll")
    then (poll, true)
    else if text_eq name (codes "kqueue")
    then (if have_kqueue then (kqueue, true) else (poll, false))
    else (default_backend have_kqueue, false)

unfoldable pub backend_name : Backend → Text
backend_name kqueue = codes "kqueue"
backend_name poll = codes "poll"

-- The constructor; `opened` says whether `kqueue()` succeeded, `answers` what `kevent` will answer.
unfoldable pub event_loop : Bool → Bool → Backend → List KeventAnswer → EventLoop
event_loop have_kqueue opened wanted answers = record {
  backend = elim wanted [ poll ↦ poll | kqueue ↦ if have_kqueue && opened then kqueue else poll ];
  pollfds = [];
  poll_index = [];
  kq_interest = [];
  kevent_answers = answers;
  kevent_changes = [];
}

unfoldable pub poll_mask : Bool → Bool → Mask
poll_mask r w = record { pollin = r; pollout = w }

-- A write out of bounds is undefined; `Indexed` below rules it out.
unfoldable pub set : List PollFd → ℕ → PollFd → List PollFd
set [] i e = []
set (x ∷ xs) zero e = e ∷ xs
set (x ∷ xs) (suc i) e = x ∷ set xs i e

unfoldable pub set_mask : List PollFd → ℕ → Mask → List PollFd
set_mask [] i m = []
set_mask (x ∷ xs) zero m = record x { events = m } ∷ xs
set_mask (x ∷ xs) (suc i) m = x ∷ set_mask xs i m

unfoldable pub pop_back : List PollFd → List PollFd
pop_back [] = []
pop_back (x ∷ []) = []
pop_back (x ∷ y ∷ xs) = x ∷ pop_back (y ∷ xs)

poll_push : ℕ → Bool → Bool → EventLoop → EventLoop
unfolding poll_mask insert
poll_push fd r w l = record l {
  poll_index = insert fd (length l.pollfds) l.poll_index;
  pollfds = l.pollfds ++ record { fd = fd; events = poll_mask r w } ∷ [];
}

poll_set : ℕ → Bool → Bool → EventLoop → EventLoop
unfolding poll_mask set_mask
poll_set idx r w l = record l { pollfds = set_mask l.pollfds idx (poll_mask r w) }

-- `poll_add` hands a known descriptor to `poll_update`, and `poll_update` an unknown one to `poll_add`.
unfoldable pub poll_add : ℕ → Bool → Bool → EventLoop → EventLoop
unfolding poll_push poll_set find
poll_add fd r w l = elim (find fd l.poll_index) [
  | none ↦ poll_push fd r w l
  | some idx ↦ poll_set idx r w l
]

unfoldable pub poll_update : ℕ → Bool → Bool → EventLoop → EventLoop
unfolding poll_push poll_set find
poll_update fd r w l = elim (find fd l.poll_index) [
  | none ↦ poll_push fd r w l
  | some idx ↦ poll_set idx r w l
]

-- Swap with the last entry, then drop it. `none` is a read out of bounds.
swap_last : ℕ → EventLoop → Option EventLoop
unfolding insert set
swap_last idx l =
    let last = length l.pollfds - 1 in
    if idx == last then some l else elim (get_elem? l.pollfds last) [
      | none ↦ none
      | some e ↦
          some
            (record l { pollfds = set l.pollfds idx e; poll_index = insert e.fd idx l.poll_index })
    ]

unfoldable pub poll_remove : ℕ → EventLoop → Option EventLoop
unfolding swap_last find erase pop_back
poll_remove fd l = elim (find fd l.poll_index) [
  | none ↦ some l
  | some idx ↦ elim (swap_last idx l) [
    | none ↦ none
    | some m ↦ some (record m { pollfds = pop_back m.pollfds; poll_index = erase fd m.poll_index })
  ]
]

-- kqueue: the interest in a descriptor, created if it is missing.
unfoldable pub interest_of : ℕ → EventLoop → Bool × Bool
unfolding find
interest_of fd l = elim (find fd l.kq_interest) [ none ↦ (false, false) | some i ↦ i ]

same : Bool → Bool → Bool
same true b = b
same false b = not b

-- The changelist that takes a descriptor from one pair of interests to another.
unfoldable pub changes : ℕ → Bool × Bool → Bool × Bool → List Change
unfolding same
changes fd (r, w) (r', w') =
    (if same r r' then [] else read_filter fd r' ∷ [])
    ++ (if same w w' then [] else write_filter fd w' ∷ [])

-- The answer of the next call of `kevent`, and those to come.
next_answer : List KeventAnswer → KeventAnswer × List KeventAnswer
next_answer [] = (applied, [])
next_answer (a ∷ as') = (a, as')

pub accepts : KeventAnswer → Bool
accepts applied = true
accepts no_entry = true
accepts refused = false

kq_register : ℕ → Bool → Bool → List Change → EventLoop → Bool × EventLoop
unfolding next_answer accepts interest_of insert
kq_register fd r w [] l = (true, record l { kq_interest = insert fd (r, w) l.kq_interest })
kq_register fd r w (c ∷ cs) l =
    let (answer, later) = next_answer l.kevent_answers in
    (
      accepts answer,
      record l {
        kevent_answers = later;
        kevent_changes = l.kevent_changes ++ (c ∷ cs) ∷ [];
        kq_interest = insert fd (if accepts answer then (r, w) else interest_of fd l) l.kq_interest;
      },
    )

unfoldable pub kq_apply : ℕ → Bool → Bool → EventLoop → Bool × EventLoop
unfolding kq_register changes
kq_apply fd r w l = kq_register fd r w (changes fd (interest_of fd l) (r, w)) l

-- The answer to the deletions of `kq_remove` is not looked at.
kq_delete : List Change → EventLoop → EventLoop
unfolding next_answer
kq_delete [] l = l
kq_delete (c ∷ cs) l = record l {
  kevent_answers = (next_answer l.kevent_answers).1;
  kevent_changes = l.kevent_changes ++ (c ∷ cs) ∷ [];
}

unfoldable pub kq_remove : ℕ → EventLoop → EventLoop
unfolding kq_delete changes find erase
kq_remove fd l = elim (find fd l.kq_interest) [
  | none ↦ l
  | some i ↦ record (kq_delete (changes fd i (false, false)) l) {
    kq_interest = erase fd l.kq_interest;
  }
]

unfoldable pub size : EventLoop → ℕ
size l = elim l.backend [ poll ↦ length l.pollfds | kqueue ↦ length l.kq_interest ]

-- `add`, `update` and `remove` choose the backend.
unfoldable pub add : ℕ → Bool → Bool → EventLoop → Bool × EventLoop
unfolding poll_add kq_apply
add fd r w l = elim l.backend [ poll ↦ (true, poll_add fd r w l) | kqueue ↦ kq_apply fd r w l ]

unfoldable pub update : ℕ → Bool → Bool → EventLoop → Bool × EventLoop
unfolding poll_update kq_apply
update fd r w l = elim l.backend [
  | poll ↦ (true, poll_update fd r w l)
  | kqueue ↦ kq_apply fd r w l
]

unfoldable pub remove : ℕ → EventLoop → Option EventLoop
unfolding poll_remove kq_remove
remove fd l = elim l.backend [ poll ↦ poll_remove fd l | kqueue ↦ some (kq_remove fd l) ]
