-- ===== src/Network/EventLoop/Waiting/Reports.antt =====
-- What the kernel's events say of each descriptor, for `kq_wait` of src/network/event_loop.cpp.
use market_networks.Base.{
  Bool, List, [], arith, false, get_elem?, if◌then◌else◌, length, none, refl, some, suc, true, zero,
  ℕ, ◌&&◌, ◌++◌, ◌==◌, ◌||◌, ◌∷◌, ◌≡◌,
}
use market_networks.Network.EventLoop.{Event}
use market_networks.Network.EventLoop.Waiting.{Kevent, is_read, is_write, mark, mark_at, new_event}

-- Some event of the kernel is about the descriptor and passes the test.
abbrev pub some_event : ℕ → (Kevent → Bool) → List Kevent → Bool
some_event fd test [] = false
some_event fd test (k ∷ ks) = (k.ident == fd) && test k || some_event fd test ks

-- All that the kernel says about a descriptor.
abbrev pub report : ℕ → List Kevent → Event
report fd ks = record {
  fd = fd;
  readable = some_event fd (λ k. is_read k.filter || k.ev_eof) ks;
  writable = some_event fd (λ k. is_write k.filter) ks;
  hangup = some_event fd (λ k. k.ev_error) ks;
}

abbrev pub is_reported : ℕ → List Kevent → Bool
is_reported fd ks = some_event fd (λ _. true) ks

some_event-snoc :
    (fd : ℕ) (test : Kevent → Bool) (ks : List Kevent) (k : Kevent)
    → some_event fd test (ks ++ k ∷ []) ≡ (some_event fd test ks || (k.ident == fd) && test k)
some_event-snoc fd test [] k = ground arith
some_event-snoc fd test (h ∷ ks) k = ground (arith, some_event-snoc fd test ks k)

pub report-own :
    (ks : List Kevent) (k : Kevent) → report k.ident (ks ++ k ∷ []) ≡ mark k (report k.ident ks)
unfolding mark
report-own ks k = ground (
  arith,
  some_event-snoc k.ident (λ (h : Kevent). is_read h.filter || h.ev_eof) ks k,
  some_event-snoc k.ident (λ (h : Kevent). is_write h.filter) ks k,
  some_event-snoc k.ident (λ (h : Kevent). h.ev_error) ks k,
)

pub report-other :
    (fd : ℕ) (ks : List Kevent) (k : Kevent)
    → (k.ident == fd) ≡ false
    → report fd (ks ++ k ∷ []) ≡ report fd ks
report-other fd ks k h = ground (
  arith,
  some_event-snoc fd (λ (j : Kevent). is_read j.filter || j.ev_eof) ks k,
  some_event-snoc fd (λ (j : Kevent). is_write j.filter) ks k,
  some_event-snoc fd (λ (j : Kevent). j.ev_error) ks k,
)

pub get_elem?-mark_at :
    (k : Kevent) (i j : ℕ) (out : List Event)
    → get_elem? (mark_at k i out) j ≡ (
        if i == j
        then (elim (get_elem? out j) [ none ↦ none | some e ↦ some (mark k e) ])
        else get_elem? out j)
unfolding mark_at
get_elem?-mark_at k i j [] = ground arith
get_elem?-mark_at k zero zero (e ∷ es) = refl
get_elem?-mark_at k zero (suc j) (e ∷ es) = ground arith
get_elem?-mark_at k (suc i) zero (e ∷ es) = ground arith
get_elem?-mark_at k (suc i) (suc j) (e ∷ es) = ground (arith, get_elem?-mark_at k i j es)

pub get_elem?-snoc :
    (out : List Event) (e : Event) (j : ℕ)
    → get_elem? (out ++ e ∷ []) j ≡ (if length out == j then some e else get_elem? out j)
get_elem?-snoc [] e zero = refl
get_elem?-snoc [] e (suc j) = ground arith
get_elem?-snoc (x ∷ out) e zero = ground arith
get_elem?-snoc (x ∷ out) e (suc j) = ground (arith, get_elem?-snoc out e j)

pub get_elem?-past : (out : List Event) → get_elem? out (length out) ≡ none
get_elem?-past [] = refl
get_elem?-past (x ∷ out) = get_elem?-past out

pub is_reported-snoc :
    (fd : ℕ) (done : List Kevent) (k : Kevent)
    → is_reported fd (done ++ k ∷ []) ≡ (is_reported fd done || k.ident == fd)
is_reported-snoc fd done k = ground (arith, some_event-snoc fd (λ (_ : Kevent). true) done k)

unreported :
    (fd : ℕ) (test : Kevent → Bool) (done : List Kevent)
    → is_reported fd done ≡ false
    → some_event fd test done ≡ false
unreported fd test [] h = refl
unreported fd test (k ∷ done) h = ground (arith, unreported fd test done)

pub report-unreported :
    (fd : ℕ) (done : List Kevent) → is_reported fd done ≡ false → report fd done ≡ new_event fd
unfolding new_event
report-unreported fd done h = ground (
  arith,
  unreported fd (λ (j : Kevent). is_read j.filter || j.ev_eof) done h,
  unreported fd (λ (j : Kevent). is_write j.filter) done h,
  unreported fd (λ (j : Kevent). j.ev_error) done h,
)
