-- ===== src/Network/EventLoop/Registry/Chosen.antt =====
-- `EventLoop::add`, `update` and `remove` of src/network/event_loop.cpp, which choose the backend.
use market_networks.Base.{
  All, Bool, List, Option, Option-cases, [], ap, arith, false, if◌then◌else◌, inl, inr, none, refl,
  some, subst, sym, true, ℕ, ◌==◌, ◌∙◌, ◌∷◌, ◌≡◌, ◌⊎◌,
}
use market_networks.Base.Assoc.{find}
use market_networks.Network.EventLoop.{
  Backend, poll, kqueue, EventLoop, Change, interest_of, changes, kq_register, kq_apply, kq_delete,
  kq_remove, add, update, remove, poll_add, poll_update, poll_remove, poll_push, poll_set,
  swap_last, KeventAnswer, next_answer, accepts,
}
use market_networks.Network.EventLoop.Poll.{Indexed}
use market_networks.Network.EventLoop.Registered.{kq_remove-Indexed}
use market_networks.Network.EventLoop.Registry.{
  Wanted, Registers, IsRegistry, poll_view, kq_view, view, poll-IsRegistry, kqueue-IsRegistry,
  kq_remove-view,
}

-- No operation changes the backend.
poll_update-backend :
    (fd : ℕ) (r w : Bool) (l : EventLoop) → (poll_update fd r w l).backend ≡ l.backend
unfolding poll_update poll_push poll_set
poll_update-backend fd r w l = ground arith

poll_remove-backend : (fd : ℕ) (l m : EventLoop) → poll_remove fd l ≡ some m → m.backend ≡ l.backend
unfolding poll_remove swap_last
poll_remove-backend fd l m e = ground arith

kq_register-backend :
    (fd : ℕ) (r w : Bool) (cs : List Change) (l : EventLoop)
    → (kq_register fd r w cs l).1.backend ≡ l.backend
unfolding kq_register
kq_register-backend fd r w [] l = refl
kq_register-backend fd r w (c ∷ cs) l = refl

kq_delete-backend : (cs : List Change) (l : EventLoop) → (kq_delete cs l).backend ≡ l.backend
unfolding kq_delete
kq_delete-backend [] l = refl
kq_delete-backend (c ∷ cs) l = refl

next-accepts :
    (as' : List KeventAnswer)
    → All (λ a. accepts a ≡ true) as'
    → (accepts (next_answer as').0 ≡ true) × All (λ a. accepts a ≡ true) (next_answer as').1
unfolding next_answer accepts
next-accepts [] h = (refl, tt)
next-accepts (a ∷ as') h = h

kq_delete-answers :
    (cs : List Change) (l : EventLoop)
    → All (λ a. accepts a ≡ true) l.kevent_answers
    → All (λ a. accepts a ≡ true) (kq_delete cs l).kevent_answers
unfolding kq_delete
kq_delete-answers [] l h = h
kq_delete-answers (c ∷ cs) l h = (next-accepts l.kevent_answers h).1

kq_remove-backend : (fd : ℕ) (l : EventLoop) → (kq_remove fd l).backend ≡ l.backend
unfolding kq_remove
kq_remove-backend fd l = elim (Option-cases (find fd l.kq_interest)) [
  | inl e ↦ rw (kq_remove, e)
  | inr (i, e) ↦ rw (kq_remove, e) (kq_delete-backend (changes fd i (false, false)) l)
]

same_loop : (l m : EventLoop) → some l ≡ some m → l ≡ m
same_loop l m e = ap (λ (o : Option EventLoop). elim o [ none ↦ l | some u ↦ u ]) e

Backend-cases : (b : Backend) → (b ≡ poll) ⊎ (b ≡ kqueue)
Backend-cases poll = inl refl
Backend-cases kqueue = inr refl

on_poll :
    {A : Type 0} (b : Backend) (x y : A)
    → b ≡ poll
    → elim b as (λ _. A) [ poll ↦ x | kqueue ↦ y ] ≡ x
on_poll poll x y e = refl
on_poll kqueue x y e = cc

on_kqueue :
    {A : Type 0} (b : Backend) (x y : A)
    → b ≡ kqueue
    → elim b as (λ _. A) [ poll ↦ x | kqueue ↦ y ] ≡ y
on_kqueue poll x y e = cc
on_kqueue kqueue x y e = refl

poll-view : (l : EventLoop) → l.backend ≡ poll → (k : ℕ) → view l k ≡ poll_view l k
poll-view l e k = rw e

kqueue-view : (l : EventLoop) → l.backend ≡ kqueue → (k : ℕ) → view l k ≡ kq_view l k
kqueue-view l e k = rw e

-- A registration by the backend of the loop.
module _ (own : EventLoop → ℕ → Option Wanted) (fd : ℕ) (r w : Bool) (l : EventLoop)
    (here : (k : ℕ) → view l k ≡ own l k) where
  chosen-Registers :
      (o o' : Bool × EventLoop)
      → o' ≡ o
      → ((k : ℕ) → view o.1 k ≡ own o.1 k)
      → Registers own Indexed fd r w l o
      → Registers view Indexed fd r w l o'
  chosen-Registers o o' e there (u, h) =
      subst (Registers view Indexed fd r w l) (sym e)
        (u, λ k. there k ∙ h k ∙ rw (here fd, here k) refl)

add-Registers :
    (fd : ℕ) (r w : Bool) (l : EventLoop)
    → Indexed l
    → Registers view Indexed fd r w l (add fd r w l)
unfolding add kq_apply poll_add poll_update
add-Registers fd r w l v = elim (Backend-cases l.backend) [
  | inl e ↦
      chosen-Registers poll_view fd r w l (poll-view l e) (true, poll_add fd r w l) (add fd r w l)
        (on_poll l.backend (true, poll_add fd r w l) (kq_apply fd r w l) e)
        (poll-view (poll_add fd r w l) (poll_update-backend fd r w l ∙ e))
        (poll-IsRegistry.adds fd r w l v)
  | inr e ↦
      chosen-Registers kq_view fd r w l (kqueue-view l e) (kq_apply fd r w l) (add fd r w l)
        (on_kqueue l.backend (true, poll_add fd r w l) (kq_apply fd r w l) e)
        (kqueue-view (kq_apply fd r w l).1
          (kq_register-backend fd r w (changes fd (interest_of fd l) (r, w)) l ∙ e))
        (kqueue-IsRegistry.adds fd r w l v)
]

update-Registers :
    (fd : ℕ) (r w : Bool) (l : EventLoop)
    → Indexed l
    → Registers view Indexed fd r w l (update fd r w l)
unfolding update add poll_update poll_add
update-Registers fd r w l v = add-Registers fd r w l v

remove-removes :
    (fd : ℕ) (l : EventLoop)
    → Indexed l
    → (m : EventLoop) × (remove fd l ≡ some m)
      × Indexed m
      × ((k : ℕ) → view m k ≡ (if fd == k then none else view l k))
unfolding remove
remove-removes fd l v = elim (Backend-cases l.backend) [
  | inl e ↦
      let (m, f, u, h) = poll-IsRegistry.removes fd l v in
      let there = poll-view m (poll_remove-backend fd l m f ∙ e) in
      (
        m,
        on_poll l.backend (poll_remove fd l) (some (kq_remove fd l)) e ∙ f,
        u,
        λ k. there k ∙ h k ∙ rw (poll-view l e k) refl,
      )
  | inr e ↦
      let u = kq_remove-Indexed fd l v in
      let there = kqueue-view (kq_remove fd l) (kq_remove-backend fd l ∙ e) in
      (
        kq_remove fd l,
        on_kqueue l.backend (poll_remove fd l) (some (kq_remove fd l)) e,
        u,
        λ k. there k ∙ kq_remove-view fd l k ∙ rw (kqueue-view l e k) refl,
      )
]

-- Under either backend `add`, `update` and `remove` are defined behaviour and implement a finite map from
-- descriptors to the readiness wanted of them: a registration that succeeds sets the entry of its
-- descriptor, one that the kernel refuses leaves what is wanted as it was, a removal takes the entry
-- out, and none touches another descriptor or makes the index inconsistent.
pub event_loop-IsRegistry : IsRegistry view Indexed add update remove
event_loop-IsRegistry = record {
  adds = add-Registers;
  updates = update-Registers;
  removes = remove-removes;
}

pub add-Indexed : (fd : ℕ) (r w : Bool) (l : EventLoop) → Indexed l → Indexed (add fd r w l).1
add-Indexed fd r w l v = (add-Registers fd r w l v).0

pub update-Indexed : (fd : ℕ) (r w : Bool) (l : EventLoop) → Indexed l → Indexed (update fd r w l).1
update-Indexed fd r w l v = (update-Registers fd r w l v).0

pub remove-Indexed :
    (fd : ℕ) (l : EventLoop) → Indexed l → (m : EventLoop) × (remove fd l ≡ some m) × Indexed m
remove-Indexed fd l v = let (m, e, u, _) = remove-removes fd l v in (m, e, u)

-- No registration is refused: under poll none can be, under kqueue no answer of `kevent` is an error
-- but the benign ENOENT.
abbrev pub IsObliging : EventLoop → Type 0
IsObliging l =
    (l.backend ≡ poll) ⊎ (l.backend ≡ kqueue) × All (λ a. accepts a ≡ true) l.kevent_answers

kq_register-accepted :
    (fd : ℕ) (r w : Bool) (cs : List Change) (l : EventLoop)
    → All (λ a. accepts a ≡ true) l.kevent_answers
    → ((kq_register fd r w cs l).0 ≡ true)
      × All (λ a. accepts a ≡ true) (kq_register fd r w cs l).1.kevent_answers
unfolding kq_register
kq_register-accepted fd r w [] l h = (refl, h)
kq_register-accepted fd r w (c ∷ cs) l h = next-accepts l.kevent_answers h

kq_remove-answers :
    (fd : ℕ) (l : EventLoop)
    → All (λ a. accepts a ≡ true) l.kevent_answers
    → All (λ a. accepts a ≡ true) (kq_remove fd l).kevent_answers
unfolding kq_remove
kq_remove-answers fd l h = elim (Option-cases (find fd l.kq_interest)) [
  | inl e ↦ rw (kq_remove, e) h
  | inr (i, e) ↦ rw (kq_remove, e) (kq_delete-answers (changes fd i (false, false)) l h)
]

-- Then every registration succeeds.
pub add-accepted :
    (fd : ℕ) (r w : Bool) (l : EventLoop)
    → Indexed l
    → IsObliging l
    → ((add fd r w l).0 ≡ true)
      × IsObliging (add fd r w l).1
      × ((k : ℕ) → view (add fd r w l).1 k ≡ (if fd == k then some (r, w) else view l k))
unfolding add poll_add poll_update kq_apply
add-accepted fd r w l v o =
    let (accepted, kept) : ((add fd r w l).0 ≡ true) × IsObliging (add fd r w l).1 = elim o [
      | inl e ↦
          let q = on_poll l.backend (true, poll_add fd r w l) (kq_apply fd r w l) e in
          (ap (λ o. o.0) q, inl (ap (λ o. o.1.backend) q ∙ poll_update-backend fd r w l ∙ e))
      | inr (e, h) ↦
          let q = on_kqueue l.backend (true, poll_add fd r w l) (kq_apply fd r w l) e in
          let cs = changes fd (interest_of fd l) (r, w) in
          let (ok, later) = kq_register-accepted fd r w cs l h in
          (
            ap (λ o. o.0) q ∙ ok,
            inr (
              ap (λ o. o.1.backend) q ∙ kq_register-backend fd r w cs l ∙ e,
              subst (λ (o : Bool × EventLoop). All (λ a. accepts a ≡ true) o.1.kevent_answers)
                  (sym q) later,
            ),
          )
    ] in
    (accepted, kept, λ k. (add-Registers fd r w l v).1 k ∙ rw accepted refl)

pub update-accepted :
    (fd : ℕ) (r w : Bool) (l : EventLoop)
    → Indexed l
    → IsObliging l
    → IsObliging (update fd r w l).1
      × ((k : ℕ) → view (update fd r w l).1 k ≡ (if fd == k then some (r, w) else view l k))
unfolding update add poll_update poll_add
update-accepted fd r w l v o = let (_, b, h) = add-accepted fd r w l v o in (b, h)

pub remove-accepted :
    (fd : ℕ) (l m : EventLoop)
    → Indexed l
    → IsObliging l
    → remove fd l ≡ some m
    → IsObliging m × ((k : ℕ) → view m k ≡ (if fd == k then none else view l k))
unfolding remove
remove-accepted fd l m v o h =
    let (m', f, _, there) = remove-removes fd l v in
    let same : m' ≡ m = same_loop m' m (sym f ∙ h) in
    (
      elim o [
        | inl e ↦ inl (
            poll_remove-backend fd l m
              (sym (on_poll l.backend (poll_remove fd l) (some (kq_remove fd l)) e) ∙ h)
            ∙ e)
        | inr (e, all) ↦
            let q : kq_remove fd l ≡ m =
              same_loop (kq_remove fd l) m
                (sym (on_kqueue l.backend (poll_remove fd l) (some (kq_remove fd l)) e) ∙ h) in
            subst IsObliging q (inr (kq_remove-backend fd l ∙ e, kq_remove-answers fd l all))
      ],
      λ k. ap (λ u. view u k) (sym same) ∙ there k,
    )
