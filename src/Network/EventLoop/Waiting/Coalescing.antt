-- ===== src/Network/EventLoop/Waiting/Coalescing.antt =====
-- What `kq_wait` of src/network/event_loop.cpp makes of the kernel's events: one for each descriptor.
use market_networks.Base.{
  Bool-cases, List, Option-cases, [], ap, append-nil, append_assoc, arith, false, get_elem?, inl,
  inr, length, none, some, sym, true, ℕ, ◌++◌, ◌<◌, ◌==◌, ◌∙◌, ◌∷◌, ◌≡◌,
}
use market_networks.Base.Assoc.{Assoc, find, insert, find-insert}
use market_networks.Network.EventLoop.{Event, EventLoop}
use market_networks.Network.EventLoop.Waiting.{
  Kevent, kqueue_ready, mark, mark_at, new_event, coalesce, kq_wait,
}
use market_networks.Network.EventLoop.Waiting.Reports.{
  report, is_reported, report-own, report-other, get_elem?-mark_at, get_elem?-snoc, get_elem?-past,
  is_reported-snoc, report-unreported,
}

-- The state of the loop after some of the kernel's events.
record IsCoalesced (done : List Kevent) (seen : Assoc ℕ) (out : List Event) : Type 0 where
  reported : (fd : ℕ) → is_reported fd done ≡ true → (i : ℕ) × (find fd seen ≡ some i)
  placed : (fd i : ℕ) → find fd seen ≡ some i → get_elem? out i ≡ some (report fd done)
  indexed : (i : ℕ) (e : Event) → get_elem? out i ≡ some e → find e.fd seen ≡ some i

start-IsCoalesced : IsCoalesced [] [] []
unfolding find
start-IsCoalesced = record { reported = λ fd h. cc; placed = λ fd i h. cc; indexed = λ i e h. cc }

module _ (k : Kevent) (done : List Kevent) (seen : Assoc ℕ) (out : List Event)
    (v : IsCoalesced done seen out) where
  module _ (i : ℕ) (at : find k.ident seen ≡ some i) where
    marked-placed :
        (fd j : ℕ)
        → find fd seen ≡ some j
        → get_elem? (mark_at k i out) j ≡ some (report fd (done ++ k ∷ []))
    marked-placed fd j h = elim (Bool-cases (k.ident == fd)) [
      | inl same ↦
          let p : k.ident ≡ fd = ground arith in
          let q : i ≡ j = ground (arith, ap (λ f. find f seen) p) in
          rw (← p, ← q, get_elem?-mark_at k i i out, v.placed k.ident i at, report-own done k)
            (ground arith)
      | inr other ↦ ground (
        arith,
        get_elem?-mark_at k i j out,
        v.placed fd j h,
        v.placed k.ident i at,
        report-other fd done k other,
      )
    ]

    marked-indexed :
        (j : ℕ) (e : Event) → get_elem? (mark_at k i out) j ≡ some e → find e.fd seen ≡ some j
    unfolding mark
    marked-indexed j e h = elim (Option-cases (get_elem? out j)) [
      | inl n ↦ ground (arith, get_elem?-mark_at k i j out)
      | inr (e0, n) ↦ ground (arith, get_elem?-mark_at k i j out, v.indexed j e0 n)
    ]

    marked-IsCoalesced : IsCoalesced (done ++ k ∷ []) seen (mark_at k i out)
    marked-IsCoalesced = record {
      reported = λ fd h. elim (Bool-cases (k.ident == fd)) [
        | inl same ↦ let p : k.ident ≡ fd = ground arith in (i, ap (λ f. find f seen) (sym p) ∙ at)
        | inr other ↦ v.reported fd (ground (arith, is_reported-snoc fd done k))
      ];
      placed = marked-placed;
      indexed = marked-indexed;
    }

module _ (k : Kevent) (done : List Kevent) (seen : Assoc ℕ) (out : List Event)
    (v : IsCoalesced done seen out) (absent : find k.ident seen ≡ none) where
  not_yet : is_reported k.ident done ≡ false
  not_yet = elim (Bool-cases (is_reported k.ident done)) [
    | inl h ↦ let (i, e) = v.reported k.ident h in ground arith
    | inr h ↦ h
  ]

  appended-placed :
      (fd i : ℕ)
      → find fd (insert k.ident (length out) seen) ≡ some i
      → get_elem? (out ++ new_event k.ident ∷ []) i ≡ some (report fd done)
  appended-placed fd i h = elim (Bool-cases (k.ident == fd)) [
    | inl same ↦
        let p : k.ident ≡ fd = ground arith in
        let q : length out ≡ i = ground (arith, find-insert k.ident fd (length out) seen) in
        rw
          (
            ← p,
            ← q,
            get_elem?-snoc out (new_event k.ident) (length out),
            report-unreported k.ident done not_yet,
          )
          (ground arith)
    | inr other ↦ ground (
      arith,
      find-insert k.ident fd (length out) seen,
      get_elem?-snoc out (new_event k.ident) i,
      v.placed fd i,
      get_elem?-past out,
    )
  ]

  appended-indexed :
      (i : ℕ) (e : Event)
      → get_elem? (out ++ new_event k.ident ∷ []) i ≡ some e
      → find e.fd (insert k.ident (length out) seen) ≡ some i
  unfolding new_event
  appended-indexed i e h = ground (
    arith,
    find-insert k.ident e.fd (length out) seen,
    get_elem?-snoc out (new_event k.ident) i,
    v.indexed i e,
  )

  appended-IsCoalesced :
      IsCoalesced done (insert k.ident (length out) seen) (out ++ new_event k.ident ∷ [])
  appended-IsCoalesced = record {
    reported = λ fd h. elim (Bool-cases (k.ident == fd)) [
      | inl same ↦ (length out, ground (arith, find-insert k.ident fd (length out) seen))
      | inr other ↦
          let (i, e) = v.reported fd h in
          (i, ground (arith, find-insert k.ident fd (length out) seen))
    ];
    placed = appended-placed;
    indexed = appended-indexed;
  }

abbrev IsKnown : List Kevent → Assoc ℕ → Type 0
IsKnown done seen = (fd i : ℕ) → find fd seen ≡ some i → is_reported fd done ≡ true

-- What the result is to be, given what the kernel said.
abbrev pub Coalesced : List Kevent → List Event → Type 0
Coalesced ks out =
    ((fd : ℕ) → is_reported fd ks ≡ true → (i : ℕ) × (get_elem? out i ≡ some (report fd ks)))
    × ((i : ℕ) (e : Event)
        → get_elem? out i ≡ some e
        → (is_reported e.fd ks ≡ true) × (e ≡ report e.fd ks))
    × ((i j : ℕ) (e f : Event)
        → get_elem? out i ≡ some e
        → get_elem? out j ≡ some f
        → e.fd ≡ f.fd
        → i ≡ j)

finished :
    (ks : List Kevent) (seen : Assoc ℕ) (out : List Event)
    → IsCoalesced ks seen out
    → IsKnown ks seen
    → Coalesced ks out
finished ks seen out v known = (
  λ fd h. let (i, e) = v.reported fd h in (i, v.placed fd i e),
  (λ i e h. (known e.fd i (v.indexed i e h), ground (arith, h, v.placed e.fd i (v.indexed i e h)))),
  λ i j e f h g p. ground (arith, v.indexed i e h, v.indexed j f g, ap (λ x. find x seen) p),
)

coalesce-Coalesced :
    (ks done : List Kevent) (seen : Assoc ℕ) (out : List Event)
    → IsCoalesced done seen out
    → IsKnown done seen
    → Coalesced (done ++ ks) (coalesce ks seen out)
unfolding coalesce
coalesce-Coalesced [] done seen out v known = rw append-nil (finished done seen out v known)
coalesce-Coalesced (k ∷ ks) done seen out v known = elim (Option-cases (find k.ident seen)) [
  | inl new ↦
      let n = length out in
      let seen' : Assoc ℕ = insert k.ident n seen in
      let out' = out ++ new_event k.ident ∷ [] in
      rw (coalesce, new, ← append_assoc done (k ∷ []) ks)
        (coalesce-Coalesced ks (done ++ k ∷ []) seen' (mark_at k n out')
          (marked-IsCoalesced k done seen' out' (appended-IsCoalesced k done seen out v new) n
            (ground (arith, find-insert k.ident k.ident n seen)))
          (λ fd i h.
            ground (arith, is_reported-snoc fd done k, find-insert k.ident fd n seen, known fd i)))
  | inr (i, at) ↦
      rw (coalesce, at, ← append_assoc done (k ∷ []) ks)
        (coalesce-Coalesced ks (done ++ k ∷ []) seen (mark_at k i out)
          (marked-IsCoalesced k done seen out v i at)
          (λ fd j h. ground (arith, is_reported-snoc fd done k, known fd j)))
]

-- On a loop with something registered, `kq_wait` succeeds whatever events the kernel reports, and
-- gives one event for each descriptor that the kernel names, no more: it is readable, writable or
-- hung up exactly if some of the kernel's events about that descriptor says so.
pub kq_wait-Coalesced :
    (ks : List Kevent) (l : EventLoop)
    → 0 < length l.kq_interest
    → (out : List Event) × (kq_wait (kqueue_ready ks) l ≡ some out) × Coalesced ks out
unfolding kq_wait
kq_wait-Coalesced ks l h = (
  coalesce ks [] [],
  ground arith,
  coalesce-Coalesced ks [] [] [] start-IsCoalesced (λ fd i e. unfold find in cc),
)
