-- ===== src/Server/Sound/Flushing.antt =====
-- Soundness of the output path of src/exchange_server.cpp: `flush`, `send_to`, `on_writable` and
-- `begin_orderly_close`.
use market_networks.Server.Watched.{watched_but, put_session-kept, put_session-registered}
use market_networks.Base.{
  Bool, List, Option-cases, Text, [], arith, false, if_cases, inl, inr, length, length-append, ltb,
  min, not, refl, some, subst, suc, sym, true, ℕ, ◌&&◌, ◌++◌, ◌+◌, ◌-◌, ◌==◌, ◌||◌, ◌∷◌, ◌≡◌, ◌≤◌,
}
use market_networks.Base.Assoc.{find}
use market_networks.Network.EventLoop.Registry.Chosen.{update-Indexed}
use market_networks.Server.State.{
  ClientSession, pending_bytes, SendAnswer, wrote, interrupted, would_block, failed, Server,
  put_session,
}
use market_networks.Server.Output.{
  write_pending, Written, reclaim, register_interest, settle, flush, send_to, on_writable,
  begin_orderly_close, max_output_bytes, read_chunk, differ,
}
use market_networks.Server.Sound.{IsSound, Follows, Follows-refl, Subsides, Subsides-refl, Steps}
use market_networks.Server.Sound.Replacing.{
  Replaces, Replaces-refl, drop-put_session-Steps, put_session-Steps, updated, with_loop-IsSound,
}

-- `out_start` never passes the end of the buffer.
write_pending-consumed :
    (fd : ℕ) (outbuf : Text) (out_start : ℕ) (answers : List SendAnswer)
    → out_start ≤ length outbuf
    → (write_pending fd outbuf out_start answers).out_start ≤ length outbuf
unfolding write_pending
write_pending-consumed fd outbuf k [] h = h
write_pending-consumed fd outbuf k (wrote n ∷ answers) h =
    if_cases (λ (w : Written). w.out_start ≤ length outbuf) (length outbuf - k == 0) (λ _. h)
      (λ _.
        write_pending-consumed fd outbuf (k + min (suc n) (length outbuf - k)) answers
          (omega arith))
write_pending-consumed fd outbuf k (interrupted ∷ answers) h =
    if_cases (λ (w : Written). w.out_start ≤ length outbuf) (length outbuf - k == 0) (λ _. h)
      (λ _. write_pending-consumed fd outbuf (k + 0) answers (omega arith))
write_pending-consumed fd outbuf k (would_block ∷ answers) h =
    if_cases (λ (w : Written). w.out_start ≤ length outbuf) (length outbuf - k == 0) (λ _. h)
      (λ _. h)
write_pending-consumed fd outbuf k (failed ∷ answers) h =
    if_cases (λ (w : Written). w.out_start ≤ length outbuf) (length outbuf - k == 0) (λ _. h)
      (λ _. h)

reclaim-Replaces : (x y : ClientSession) → Replaces x y → Replaces x (reclaim y)
unfolding reclaim
reclaim-Replaces x y r =
    if_cases (Replaces x) (pending_bytes y == 0)
      (λ _. updated x y _ _ _ _ _ _ _ r (omega arith) r.waiting)
      (λ _.
        if_cases (Replaces x) (ltb read_chunk y.out_start)
          (λ _. updated x y _ _ _ _ _ _ _ r (omega arith) r.waiting) (λ _. r))

-- The flags that the event loop was told last.
abbrev Unchanged : ClientSession → ClientSession → Type 0
Unchanged x y = (y.read_interest ≡ x.read_interest) × (y.write_interest ≡ x.write_interest)

reclaim-Unchanged : (x y : ClientSession) → Unchanged x y → Unchanged x (reclaim y)
unfolding reclaim
reclaim-Unchanged x y h = ground arith

same_flags : (a b c d : Bool) → (differ a b || differ c d) ≡ false → (b ≡ a) × (d ≡ c)
unfolding differ
same_flags a b c d h = ground arith

module _ (x y : ClientSession) (s : Server) (v : IsSound s) (e : find x.fd s.sessions ≡ some x)
    (r : Replaces x y) (told : Unchanged x y) where
  place : find y.fd s.sessions ≡ some x
  place = rw r.fd e

  abbrev shown : ClientSession
  shown = record y { read_interest = not y.closing; write_interest = ltb 0 (pending_bytes y) }

  register_interest-Steps : IsSound (register_interest y s) × Subsides s (register_interest y s)
  unfolding register_interest
  register_interest-Steps =
      let (w, b) =
        put_session-Steps y.fd x shown s v place
          (updated x y _ _ _ _ _ _ _ r r.consumed r.waiting) in
      if_cases (λ t. IsSound t × Subsides s t)
        (differ (not y.closing) y.read_interest
          || differ (ltb 0 (pending_bytes y)) y.write_interest)
        (λ _. (
          with_loop-IsSound (put_session y.fd shown s) _ w
              (update-Indexed y.fd _ _ s.loop v.indexed),
          (
            b,
            λ h.
                put_session-registered y.fd shown s _ _ v.indexed (watched_but y.fd s h) refl refl
                  refl (unfold pending_bytes in refl),
          ),
        ))
        (λ same.
          let (u, b') = put_session-Steps y.fd x y s v place r in
          let (reads, writes) =
            same_flags (not y.closing) y.read_interest (ltb 0 (pending_bytes y)) y.write_interest
              same in
          (u, (b', put_session-kept y.fd y s x place told.0 told.1 reads writes)))

settle-Steps :
    (x y : ClientSession) (s : Server)
    → IsSound s
    → find x.fd s.sessions ≡ some x
    → Replaces x y
    → Unchanged x y
    → Steps s (settle y s)
unfolding settle
settle-Steps x y s v e r told =
    let z : ClientSession = record y { backlogged = ltb 0 (pending_bytes y) } in
    let q : Replaces x z = updated x y _ _ _ _ _ _ _ r r.consumed r.waiting in
    if_cases (Steps s) (ltb max_output_bytes (pending_bytes y))
      (λ _. drop-put_session-Steps y.fd x y s v (place x y s v e r told) r)
      (λ _.
        if_cases (Steps s) (pending_bytes y == 0 && y.closing)
          (λ _. drop-put_session-Steps y.fd x z s v (place x y s v e r told) q)
          (λ _.
            let (w, b) = register_interest-Steps x z s v e q told in
            (register_interest z s, refl, w, b)))

with_output-IsSound :
    (s : Server) (answers : List SendAnswer) (wire : List (ℕ × Text))
    → IsSound s
    → IsSound (record s { send_answers = answers; wire = wire })
with_output-IsSound s answers wire v = record {
  sessions = v.sessions;
  subscribed = v.subscribed;
  distinct = v.distinct;
  names = v.names;
  book = v.book;
  owned = v.owned;
  indexed = v.indexed;
}

flush-Steps :
    (x y : ClientSession) (s : Server)
    → IsSound s
    → find x.fd s.sessions ≡ some x
    → Replaces x y
    → Unchanged x y
    → Steps s (flush y s)
unfolding flush
flush-Steps x y s v e r told =
    let w : Written = write_pending y.fd y.outbuf y.out_start s.send_answers in
    let s' : Server = record s { send_answers = w.answers; wire = s.wire ++ w.taken } in
    let z : ClientSession = record y { out_start = w.out_start } in
    let v' : IsSound s' = with_output-IsSound s w.answers (s.wire ++ w.taken) v in
    let q : Replaces x z =
      updated x y _ _ _ _ _ _ _ r
        (write_pending-consumed y.fd y.outbuf y.out_start s.send_answers r.consumed) r.waiting in
    if_cases (Steps s) w.broken (λ _. drop-put_session-Steps y.fd x z s' v' (rw r.fd e) q)
      (λ _.
        settle-Steps x (reclaim z) s' v' e (reclaim-Replaces x z q) (reclaim-Unchanged x z told))

-- The session that is found under a descriptor is found under its own.
found :
    (fd : ℕ) (x : ClientSession) (s : Server)
    → IsSound s
    → find fd s.sessions ≡ some x
    → find x.fd s.sessions ≡ some x
found fd x s v e = subst (λ k. find k s.sessions ≡ some x) (sym ((v.sessions fd x e).keyed)) e

-- Sending to a client of a sound server is defined behaviour whatever the socket does, be the message
-- written, kept in part or the client dropped, and the server stays sound, with no new session.
pub send_to-Steps :
    (fd : ℕ) (message : Text) (s : Server) → IsSound s → Steps s (send_to fd message s)
unfolding send_to
send_to-Steps fd message s v = elim (Option-cases (find fd s.sessions)) [
  | inl e ↦ rw (send_to, e) (s, refl, v, Subsides-refl s)
  | inr (x, e) ↦
      let w = v.sessions fd x e in
      rw (send_to, e)
        (flush-Steps x (record x { outbuf = x.outbuf ++ message }) s v (found fd x s v e)
          (updated x x _ _ _ _ _ _ _ (Replaces-refl fd x w)
            (omega (arith, w.consumed, length-append x.outbuf message)) (Follows-refl x))
          (refl, refl))
]

pub on_writable-Steps : (fd : ℕ) (s : Server) → IsSound s → Steps s (on_writable fd s)
unfolding on_writable
on_writable-Steps fd s v = elim (Option-cases (find fd s.sessions)) [
  | inl e ↦ rw (on_writable, e) (s, refl, v, Subsides-refl s)
  | inr (x, e) ↦
      rw (on_writable, e)
        (flush-Steps x x s v (found fd x s v e) (Replaces-refl fd x (v.sessions fd x e))
          (refl, refl))
]

close_found-Steps :
    (fd : ℕ) (x : ClientSession) (s : Server)
    → IsSound s
    → find fd s.sessions ≡ some x
    → Steps s (begin_orderly_close fd s)
unfolding begin_orderly_close
close_found-Steps fd x s v e =
    let w = v.sessions fd x e in
    let y : ClientSession = record x { closing = true; inbuf = [] } in
    let z : ClientSession = record y { read_interest = false; write_interest = true } in
    let ended : Follows x y = (omega arith, λ c. absurd (cc)) in
    let r : Replaces x y = updated x x _ _ _ _ _ _ _ (Replaces-refl fd x w) w.consumed ended in
    let q : Replaces x z = updated x y _ _ _ _ _ _ _ r w.consumed ended in
    let (u, b) = put_session-Steps fd x z s v e q in
    rw (begin_orderly_close, e)
      (if_cases (Steps s) (pending_bytes y == 0) (λ _. drop-put_session-Steps fd x y s v e r)
        (λ more. (
          _,
          refl,
          with_loop-IsSound (put_session fd z s) _ u
              (update-Indexed fd false true s.loop v.indexed),
          (
            b,
            λ h.
                put_session-registered fd z s false true v.indexed (watched_but fd s h) refl refl
                  refl (ground arith),
          ),
        )))

pub begin_orderly_close-Steps :
    (fd : ℕ) (s : Server) → IsSound s → Steps s (begin_orderly_close fd s)
unfolding begin_orderly_close
begin_orderly_close-Steps fd s v = elim (Option-cases (find fd s.sessions)) [
  | inl e ↦ rw (begin_orderly_close, e) (s, refl, v, Subsides-refl s)
  | inr (x, e) ↦ close_found-Steps fd x s v e
]
