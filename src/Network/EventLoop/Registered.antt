-- ===== src/Network/EventLoop/Registered.antt =====
-- Registration under the kqueue backend of src/network/event_loop.cpp does not touch the poll vector and
-- its index.
use market_networks.Base.{Bool, List, Option-cases, [], false, inl, inr, ℕ, ◌∷◌}
use market_networks.Network.EventLoop.{
  EventLoop, Change, kq_apply, kq_register, kq_remove, kq_delete, changes, interest_of,
}
use market_networks.Network.EventLoop.Poll.{Indexed}
use market_networks.Base.Assoc.{find}

kq_register-Indexed :
    (fd : ℕ) (r w : Bool) (cs : List Change) (l : EventLoop)
    → Indexed l
    → Indexed (kq_register fd r w cs l).1
unfolding kq_register
kq_register-Indexed fd r w [] l v = v
kq_register-Indexed fd r w (c ∷ cs) l v = v

kq_delete-Indexed : (cs : List Change) (l : EventLoop) → Indexed l → Indexed (kq_delete cs l)
unfolding kq_delete
kq_delete-Indexed [] l v = v
kq_delete-Indexed (c ∷ cs) l v = v

pub kq_remove-Indexed : (fd : ℕ) (l : EventLoop) → Indexed l → Indexed (kq_remove fd l)
unfolding kq_remove find
kq_remove-Indexed fd l v = elim (Option-cases (find fd l.kq_interest)) [
  | inl e ↦ rw (kq_remove, e) v
  | inr (i, e) ↦ rw (kq_remove, e) (kq_delete-Indexed (changes fd i (false, false)) l v)
]

pub kq_apply-Indexed :
    (fd : ℕ) (r w : Bool) (l : EventLoop) → Indexed l → Indexed (kq_apply fd r w l).1
unfolding kq_apply
kq_apply-Indexed fd r w l v = kq_register-Indexed fd r w (changes fd (interest_of fd l) (r, w)) l v
