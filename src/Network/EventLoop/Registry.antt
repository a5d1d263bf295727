-- ===== src/Network/EventLoop/Registry.antt =====
-- What src/network/event_loop.hpp promises of `add`, `update` and `remove`, whichever backend serves
-- them: a finite map from descriptors to the readiness that is wanted of them.
pub mod Chosen
use market_networks.Base.{
  Bool, List, Option, Option-cases, [], ap, arith, false, if◌then◌else◌, inl, inr, none, refl, some,
  true, ℕ, ◌==◌, ◌∙◌, ◌∷◌, ◌≡◌,
}
use market_networks.Base.Assoc.{find, find-erase, find-insert}
use market_networks.Network.EventLoop.{
  poll, kqueue, EventLoop, Mask, poll_mask, Change, interest_of, changes, next_answer, accepts,
  kq_register, kq_apply, kq_delete, kq_remove, add, update, remove, poll_add, poll_update,
  poll_remove,
}
use market_networks.Network.EventLoop.Poll.{
  Indexed, interest, poll_update-interest, poll_remove-interest,
}
use market_networks.Network.EventLoop.Registered.{kq_apply-Indexed, kq_remove-Indexed}

abbrev pub Wanted : Type 0
Wanted = Bool × Bool

-- What is wanted of a descriptor that may be registered.
abbrev pub wanted : Option Wanted → Wanted
wanted none = (false, false)
wanted (some i) = i

-- The outcome of a registration: on success the descriptor has the new interest, and whatever the
-- outcome no other descriptor is touched and no interest changes that was not asked for.
abbrev pub Registers :
    {L : Type 0} → (L → ℕ → Option Wanted) → (L → Type 0) → ℕ → Bool → Bool → L → Bool × L → Type 0
Registers view Inv fd r w l (ok, m) =
    Inv m
    × ((k : ℕ)
        → view m k
          ≡ (if fd == k then some (if ok then (r, w) else wanted (view l fd)) else view l k))

pub record IsRegistry {L : Type 0} (view : L → ℕ → Option Wanted) (Inv : L → Type 0)
    (add update : ℕ → Bool → Bool → L → Bool × L) (remove : ℕ → L → Option L) : Type 0 where
  pub adds : (fd : ℕ) (r w : Bool) (l : L) → Inv l → Registers view Inv fd r w l (add fd r w l)
  pub updates :
      (fd : ℕ) (r w : Bool) (l : L) → Inv l → Registers view Inv fd r w l (update fd r w l)
  pub removes :
      (fd : ℕ) (l : L)
      → Inv l
      → (m : L) × (remove fd l ≡ some m)
        × Inv m
        × ((k : ℕ) → view m k ≡ (if fd == k then none else view l k))

-- The bits of a mask.
abbrev pub bits : Option Mask → Option Wanted
bits none = none
bits (some m) = some (m.pollin, m.pollout)

abbrev pub poll_view : EventLoop → ℕ → Option Wanted
poll_view l k = bits (interest l k)

abbrev pub kq_view : EventLoop → ℕ → Option Wanted
kq_view l k = find k l.kq_interest

abbrev pub view : EventLoop → ℕ → Option Wanted
view l k = elim l.backend [ poll ↦ poll_view l k | kqueue ↦ kq_view l k ]

poll_update-Registers :
    (fd : ℕ) (r w : Bool) (l : EventLoop)
    → Indexed l
    → Registers poll_view Indexed fd r w l (true, poll_update fd r w l)
poll_update-Registers fd r w l v =
    let (u, h) = poll_update-interest fd r w l v in
    (u, λ k. ap bits (h k) ∙ (unfold poll_mask in ground arith))

pub poll-IsRegistry :
    IsRegistry poll_view Indexed
      (λ fd r w l. (true, poll_add fd r w l))
      (λ fd r w l. (true, poll_update fd r w l))
      poll_remove
unfolding poll_add poll_update
poll-IsRegistry = record {
  adds = λ fd r w l v. poll_update-Registers fd r w l v;
  updates = λ fd r w l v. poll_update-Registers fd r w l v;
  removes = λ fd l v.
      let (m, e, u, h) = poll_remove-interest fd l v in
      (m, e, u, λ k. ap bits (h k) ∙ ground arith);
}

kq_register-view :
    (fd : ℕ) (r w : Bool) (cs : List Change) (l : EventLoop) (k : ℕ)
    → let (ok, m) = kq_register fd r w cs l in
      kq_view m k
      ≡ (if fd == k then some (if ok then (r, w) else interest_of fd l) else kq_view l k)
unfolding kq_register
kq_register-view fd r w [] l k = find-insert fd k (r, w) l.kq_interest
kq_register-view fd r w (c ∷ cs) l k =
    find-insert fd k (if accepts (next_answer l.kevent_answers).0 then (r, w) else interest_of fd l)
      l.kq_interest

kq_apply-Registers :
    (fd : ℕ) (r w : Bool) (l : EventLoop)
    → Indexed l
    → Registers kq_view Indexed fd r w l (kq_apply fd r w l)
unfolding kq_apply interest_of
kq_apply-Registers fd r w l v = (
  kq_apply-Indexed fd r w l v,
  λ k. kq_register-view fd r w (changes fd (interest_of fd l) (r, w)) l k,
)

kq_delete-view : (cs : List Change) (l : EventLoop) → (kq_delete cs l).kq_interest ≡ l.kq_interest
unfolding kq_delete
kq_delete-view [] l = refl
kq_delete-view (c ∷ cs) l = refl

pub kq_remove-view :
    (fd : ℕ) (l : EventLoop) (k : ℕ)
    → kq_view (kq_remove fd l) k ≡ (if fd == k then none else kq_view l k)
unfolding kq_remove
kq_remove-view fd l k = elim (Option-cases (find fd l.kq_interest)) [
  | inl e ↦ rw (kq_remove, e) (ground arith)
  | inr (i, e) ↦ rw (kq_remove, e) (find-erase fd k l.kq_interest)
]

pub kqueue-IsRegistry : IsRegistry kq_view Indexed kq_apply kq_apply (λ fd l. some (kq_remove fd l))
kqueue-IsRegistry = record {
  adds = kq_apply-Registers;
  updates = kq_apply-Registers;
  removes = λ fd l v. (kq_remove fd l, refl, kq_remove-Indexed fd l v, kq_remove-view fd l);
}
