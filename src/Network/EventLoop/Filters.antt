-- ===== src/Network/EventLoop/Filters.antt =====
-- The changelists that the kqueue backend of src/network/event_loop.cpp hands to `kevent`, against the
-- filters that the kernel has.
use market_networks.Base.{
  All, Bool, Bool-cases, List, Option, Option-cases, [], ap, arith, false, if◌then◌else◌, inl, inr,
  none, refl, some, sym, true, ℕ, ◌++◌, ◌==◌, ◌>>=◌, ◌||◌, ◌∙◌, ◌∷◌, ◌≡◌,
}
use market_networks.Base.Assoc.{find, erase, find-erase, find-insert}
use market_networks.Network.EventLoop.{
  EventLoop, KeventAnswer, applied, Change, read_filter, write_filter, interest_of, changes, same,
  next_answer, accepts, kq_register, kq_apply, kq_delete, kq_remove,
}
use market_networks.Network.EventLoop.Registry.{Wanted}

-- What kqueue(2) documents of a changelist: EV_ADD enables a filter, and EV_DELETE takes away one that
-- is there.
pub record Kernel : Type 1 where
  pub Filters : Type 0
  -- Whether a descriptor has the filter for reading, and that for writing.
  pub has : Filters → ℕ → Wanted
  pub no_filters : Filters
  pub apply_change : Change → Filters → Option Filters
  pub nothing_yet : (k : ℕ) → has no_filters k ≡ (false, false)
  pub reads :
      (fd : ℕ) (on : Bool) (f : Filters)
      → (on || (has f fd).0) ≡ true
      → (g : Filters) × (apply_change (read_filter fd on) f ≡ some g)
        × ((k : ℕ) → has g k ≡ (if fd == k then (on, (has f k).1) else has f k))
  pub writes :
      (fd : ℕ) (on : Bool) (f : Filters)
      → (on || (has f fd).1) ≡ true
      → (g : Filters) × (apply_change (write_filter fd on) f ≡ some g)
        × ((k : ℕ) → has g k ≡ (if fd == k then ((has f k).0, on) else has f k))

-- The changes of one call; `none` is a change that fails.
unfoldable pub apply_changes : (K : Kernel) → List Change → K.Filters → Option K.Filters
apply_changes K [] f = some f
apply_changes K (c ∷ cs) f = K.apply_change c f >>= apply_changes K cs

-- The calls one after another.
unfoldable pub apply_calls : (K : Kernel) → List (List Change) → K.Filters → Option K.Filters
unfolding apply_changes
apply_calls K [] f = some f
apply_calls K (cs ∷ css) f = apply_changes K cs f >>= apply_calls K css

module _ (K : Kernel) where
  read_step :
      (fd : ℕ) (r : Bool) (f : K.Filters) (cs : List Change)
      → (g : K.Filters) × (apply_changes K
            ((if same (K.has f fd).0 r then [] else read_filter fd r ∷ []) ++ cs)
            f
          ≡ apply_changes K cs g)
        × ((k : ℕ) → K.has g k ≡ (if fd == k then (r, (K.has f k).1) else K.has f k))
  unfolding apply_changes same
  read_step fd r f cs = elim (Bool-cases (same (K.has f fd).0 r)) [
    | inl e ↦ (f, rw e refl, λ k. ground arith)
    | inr e ↦ let (g, q, h) = K.reads fd r f (ground arith) in (g, rw (e, apply_changes, q) refl, h)
  ]

  write_step :
      (fd : ℕ) (w b : Bool) (f : K.Filters)
      → (K.has f fd).1 ≡ b
      → (g : K.Filters) × (apply_changes K (if same b w then [] else write_filter fd w ∷ []) f
          ≡ some g)
        × ((k : ℕ) → K.has g k ≡ (if fd == k then ((K.has f k).0, w) else K.has f k))
  unfolding apply_changes same
  write_step fd w b f was = elim (Bool-cases (same b w)) [
    | inl e ↦ (f, rw e refl, λ k. ground arith)
    | inr e ↦
        let (g, q, h) = K.writes fd w f (ground arith) in (g, rw (e, apply_changes, q) refl, h)
  ]

  -- The changelist takes the filters of a descriptor to the new interest, without a change that fails.
  changes_lem :
      (fd : ℕ) (r w : Bool) (f : K.Filters)
      → (g : K.Filters) × (apply_changes K (changes fd (K.has f fd) (r, w)) f ≡ some g)
        × ((k : ℕ) → K.has g k ≡ (if fd == k then (r, w) else K.has f k))
  unfolding apply_changes changes
  changes_lem fd r w f =
      let later = if same (K.has f fd).1 w then [] else write_filter fd w ∷ [] in
      let (g, e, h) = read_step fd r f later in
      let (m, e', h') = write_step fd w (K.has f fd).1 g (ground (arith, h fd)) in
      (m, e ∙ e', λ k. h' k ∙ ground (arith, h k))

  apply_calls-append :
      (css : List (List Change)) (cs : List Change) (f : K.Filters)
      → apply_calls K (css ++ cs ∷ []) f ≡ (apply_calls K css f >>= apply_changes K cs)
  unfolding apply_calls
  apply_calls-append [] cs f = elim (Option-cases (apply_changes K cs f)) [
    | inl e ↦ rw e refl
    | inr (g, e) ↦ rw e refl
  ]
  apply_calls-append (x ∷ css) cs f = elim (Option-cases (apply_changes K x f)) [
    | inl e ↦ rw e refl
    | inr (g, e) ↦ rw e (apply_calls-append css cs g)
  ]

-- The kernel's filters, after all the calls so far, are the interests that `kq_interest_` records.
abbrev pub Mirrors : Kernel → EventLoop → Type 0
Mirrors K l =
    (f : K.Filters) × (apply_calls K l.kevent_changes K.no_filters ≡ some f)
    × ((k : ℕ) → K.has f k ≡ interest_of k l)

abbrev pub Obeys : EventLoop → Type 0
Obeys l = All (λ a. a ≡ applied) l.kevent_answers

obeyed :
    (answers : List KeventAnswer)
    → All (λ a. a ≡ applied) answers
    → accepts (next_answer answers).0 ≡ true
unfolding next_answer accepts
obeyed [] o = refl
obeyed (a ∷ answers) o = rw o.0

-- One more call, with the changes of an interest.
module _ (K : Kernel) (fd : ℕ) (r w : Bool) (l : EventLoop) (f g : K.Filters)
    (e : apply_calls K l.kevent_changes K.no_filters ≡ some f)
    (h : (k : ℕ) → K.has f k ≡ interest_of k l)
    (h' : (k : ℕ) → K.has g k ≡ (if fd == k then (r, w) else K.has f k)) where
  same_filters : some f ≡ some g → (k : ℕ) → K.has f k ≡ K.has g k
  same_filters q k =
      ap
        (λ (o : Option K.Filters). elim o as (λ _. Wanted) [
          | none ↦ K.has f k
          | some u ↦ K.has u k
        ])
        q

  called :
      (cs : List Change)
      → apply_changes K cs f ≡ some g
      → apply_calls K (l.kevent_changes ++ cs ∷ []) K.no_filters ≡ some g
  called cs q = apply_calls-append K l.kevent_changes cs K.no_filters ∙ rw e q

  kq_register-Mirrors :
      (cs : List Change)
      → Obeys l
      → apply_changes K cs f ≡ some g
      → ((kq_register fd r w cs l).0 ≡ true) × Mirrors K (kq_register fd r w cs l).1
  unfolding kq_register next_answer accepts apply_changes interest_of
  kq_register-Mirrors [] o q = (
    refl,
    (
      f,
      e,
      λ k. same_filters q k ∙ h' k ∙ ground (arith, h k, find-insert fd k (r, w) l.kq_interest),
    ),
  )
  kq_register-Mirrors (c ∷ cs) o q =
      let t = obeyed l.kevent_answers o in
      (
        t,
        (
          g,
          called (c ∷ cs) q,
          λ k. h' k ∙ rw t (ground (arith, h k, find-insert fd k (r, w) l.kq_interest)),
        ),
      )

  kq_removed-Mirrors :
      (cs : List Change)
      → r ≡ false
      → w ≡ false
      → apply_changes K cs f ≡ some g
      → Mirrors K (record (kq_delete cs l) { kq_interest = erase fd l.kq_interest })
  unfolding kq_delete next_answer apply_changes interest_of
  kq_removed-Mirrors [] off off' q =
      (f, e, λ k. same_filters q k ∙ h' k ∙ ground (arith, h k, find-erase fd k l.kq_interest))
  kq_removed-Mirrors (c ∷ cs) off off' q =
      (g, called (c ∷ cs) q, λ k. h' k ∙ ground (arith, h k, find-erase fd k l.kq_interest))

kq_apply-Mirrors :
    (K : Kernel) (fd : ℕ) (r w : Bool) (l : EventLoop)
    → Obeys l
    → Mirrors K l
    → ((kq_apply fd r w l).0 ≡ true) × Mirrors K (kq_apply fd r w l).1
unfolding kq_apply
kq_apply-Mirrors K fd r w l o (f, e, h) =
    let (g, q, h') = changes_lem K fd r w f in
    kq_register-Mirrors K fd r w l f g e h h' (changes fd (interest_of fd l) (r, w)) o
      (ap (λ i. apply_changes K (changes fd i (r, w)) f) (sym (h fd)) ∙ q)

kq_remove-Mirrors : (K : Kernel) (fd : ℕ) (l : EventLoop) → Mirrors K l → Mirrors K (kq_remove fd l)
unfolding kq_remove interest_of
kq_remove-Mirrors K fd l (f, e, h) = elim (Option-cases (find fd l.kq_interest)) [
  | inl n ↦ rw (kq_remove, n) (f, e, h)
  | inr (i, n) ↦
      let (g, q, h') = changes_lem K fd false false f in
      let at : K.has f fd ≡ i = h fd ∙ rw (interest_of, n) refl in
      rw (kq_remove, n)
        (kq_removed-Mirrors K fd false false l f g e h h' (changes fd i (false, false)) refl refl
          (ap (λ j. apply_changes K (changes fd j (false, false)) f) (sym at) ∙ q))
]

-- Under kqueue the kernel's filters, whatever the registrations and removals, are exactly the interests
-- that the loop records: every changelist takes the filters of its descriptor from the old interest to
-- the new one, and never deletes a filter that is not there, so no registration fails. The
-- conditions: the kernel does what `kevent` documents, and applies every change.
pub kqueue-Mirrors :
    (K : Kernel) (fd : ℕ) (r w : Bool) (l : EventLoop)
    → Obeys l
    → Mirrors K l
    → ((kq_apply fd r w l).0 ≡ true) × Mirrors K (kq_apply fd r w l).1 × Mirrors K (kq_remove fd l)
kqueue-Mirrors K fd r w l o m =
    let (t, n) = kq_apply-Mirrors K fd r w l o m in (t, n, kq_remove-Mirrors K fd l m)
