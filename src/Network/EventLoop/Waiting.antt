-- ===== src/Network/EventLoop/Waiting.antt =====
-- `poll_wait` and `kq_wait` of src/network/event_loop.cpp. What the kernel answers is an argument. The
-- timeout is left to the kernel.
mod Reports
pub mod Coalescing
use market_networks.Base.{
  Bool, List, Option, [], false, if◌then◌else◌, length, none, not, some, suc, true, zero, ℕ, ◌*◌,
  ◌++◌, ◌+◌, ◌==◌, ◌||◌, ◌∷◌,
}
use market_networks.Base.Assoc.{Assoc, find, insert}
use market_networks.Network.EventLoop.{poll, kqueue, Event, PollFd, EventLoop}

-- The bits of a `pollfd`'s `revents`.
pub record Revents : Type 0 where
  pub pollin : Bool
  pub pollout : Bool
  pub pollhup : Bool
  pub pollerr : Bool
  pub pollnval : Bool

-- What `poll` answers: the entries' `revents` by descriptor.
pub data PollAnswer : Type 0 where
  poll_ready : (ℕ → Revents) → PollAnswer
  poll_timeout poll_interrupted poll_error : PollAnswer

pub data Filter : Type 0 where
  evfilt_read evfilt_write evfilt_other : Filter

pub record Kevent : Type 0 where
  pub ident : ℕ
  pub filter : Filter
  pub ev_eof : Bool
  pub ev_error : Bool

-- What `kevent` answers, at most as many as `capacity`.
pub data KqueueAnswer : Type 0 where
  kqueue_ready : List Kevent → KqueueAnswer
  kqueue_interrupted kqueue_error : KqueueAnswer

unfoldable pub is_zero : Revents → Bool
is_zero r = not (r.pollin || r.pollout || r.pollhup || r.pollerr || r.pollnval)

unfoldable pub poll_event : ℕ → Revents → Event
poll_event fd r = record {
  fd = fd;
  readable = r.pollin || r.pollhup;
  writable = r.pollout;
  hangup = r.pollerr || r.pollnval;
}

-- The snapshot of the ready descriptors.
unfoldable pub poll_events : (ℕ → Revents) → List PollFd → List Event
unfolding is_zero poll_event
poll_events revents [] = []
poll_events revents (entry ∷ entries) =
    let rest = poll_events revents entries in
    if is_zero (revents entry.fd) then rest else poll_event entry.fd (revents entry.fd) ∷ rest

-- `none` is the result -1; otherwise the result is the number of events.
unfoldable pub poll_wait : PollAnswer → EventLoop → Option (List Event)
unfolding poll_events
poll_wait answer l = if length l.pollfds == 0 then some [] else elim answer [
  | poll_ready revents ↦ some (poll_events revents l.pollfds)
  | poll_timeout ↦ some []
  | poll_interrupted ↦ some []
  | poll_error ↦ none
]

unfoldable pub is_read : Filter → Bool
is_read evfilt_read = true
is_read _ = false

unfoldable pub is_write : Filter → Bool
is_write evfilt_write = true
is_write _ = false

-- The four tests on an event of the kernel, on the `Event` of its descriptor.
unfoldable pub mark : Kevent → Event → Event
unfolding is_read is_write
mark k e = record e {
  readable = e.readable || is_read k.filter || k.ev_eof;
  writable = e.writable || is_write k.filter;
  hangup = e.hangup || k.ev_error;
}

-- `out[i]` changed. A write out of bounds is undefined; the index `seen` holds none.
unfoldable pub mark_at : Kevent → ℕ → List Event → List Event
unfolding mark
mark_at k i [] = []
mark_at k zero (e ∷ es) = mark k e ∷ es
mark_at k (suc i) (e ∷ es) = e ∷ mark_at k i es

unfoldable pub new_event : ℕ → Event
new_event fd = record { fd = fd; readable = false; writable = false; hangup = false }

-- The loop of `kq_wait`: one `Event` for each descriptor, at the position that `seen` tells.
unfoldable pub coalesce : List Kevent → Assoc ℕ → List Event → List Event
unfolding mark_at new_event find insert
coalesce [] seen out = out
coalesce (k ∷ ks) seen out = elim (find k.ident seen) [
  | none ↦
      coalesce ks (insert k.ident (length out) seen)
        (mark_at k (length out) (out ++ new_event k.ident ∷ []))
  | some i ↦ coalesce ks seen (mark_at k i out)
]

unfoldable pub kq_wait : KqueueAnswer → EventLoop → Option (List Event)
unfolding coalesce
kq_wait answer l = if length l.kq_interest == 0 then some [] else elim answer [
  | kqueue_ready kevents ↦ some (coalesce kevents [] [])
  | kqueue_interrupted ↦ some []
  | kqueue_error ↦ none
]

-- Room for both filters of every registered descriptor.
unfoldable pub capacity : EventLoop → ℕ
capacity l = length l.kq_interest * 2 + 8

unfoldable pub wait : PollAnswer → KqueueAnswer → EventLoop → Option (List Event)
unfolding poll_wait kq_wait
wait answer kevents l = elim l.backend [ poll ↦ poll_wait answer l | kqueue ↦ kq_wait kevents l ]
