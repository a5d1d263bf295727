-- ===== src/Server/Sending.antt =====
-- The bytes that `flush` of src/exchange_server.cpp hands to the kernel.
pub mod Stream
pub mod Keeping
pub mod Telling
pub mod Clearing
pub mod Publishing
pub mod Ordering
use market_networks.Base.{
  All, List, Text, [], ap, append_assoc, arith, drop, drop-drop, if_cases, length, ltb, min, refl,
  suc, sym, take, take-append-drop, zero, ℕ, ◌++◌, ◌+◌, ◌-◌, ◌==◌, ◌∙◌, ◌∷◌, ◌≡◌, ◌≤◌,
}
use market_networks.Server.State.{
  ClientSession, pending_bytes, SendAnswer, wrote, interrupted, would_block, failed,
}
use market_networks.Server.Output.{write_pending, Written, reclaim, read_chunk}

-- What has yet to be written of a session's output.
abbrev pub pending : ClientSession → Text
pending x = drop x.out_start x.outbuf

-- The bytes that the kernel took, in order.
abbrev pub taken_text : List (ℕ × Text) → Text
taken_text [] = []
taken_text ((fd, t) ∷ more) = t ++ taken_text more

abbrev Whole : ℕ → Text → ℕ → Written → Type 0
Whole fd outbuf k w =
    (taken_text w.taken ++ drop w.out_start outbuf ≡ drop k outbuf) × All (λ t. t.0 ≡ fd) w.taken

write_pending-Whole :
    (fd : ℕ) (outbuf : Text) (k : ℕ) (answers : List SendAnswer)
    → Whole fd outbuf k (write_pending fd outbuf k answers)
unfolding write_pending
write_pending-Whole fd outbuf k [] = (refl, tt)
write_pending-Whole fd outbuf k (wrote n ∷ answers) =
    let m = min (suc n) (length outbuf - k) in
    let (e, a) = write_pending-Whole fd outbuf (k + m) answers in
    if_cases (Whole fd outbuf k) (length outbuf - k == 0) (λ _. (refl, tt))
      (λ _. (
        append_assoc (take m (drop k outbuf))
              (taken_text (write_pending fd outbuf (k + m) answers).taken) _
            ∙ ap (λ t. take m (drop k outbuf) ++ t) (e ∙ sym (drop-drop k m outbuf))
            ∙ take-append-drop m (drop k outbuf),
        (refl, a),
      ))
write_pending-Whole fd outbuf k (interrupted ∷ answers) =
    if_cases (Whole fd outbuf k) (length outbuf - k == 0) (λ _. (refl, tt))
      (λ _.
        let (e, a) = write_pending-Whole fd outbuf (k + 0) answers in
        (e ∙ ap (λ j. drop j outbuf) (omega arith), a))
write_pending-Whole fd outbuf k (would_block ∷ answers) =
    if_cases (Whole fd outbuf k) (length outbuf - k == 0) (λ _. (refl, tt)) (λ _. (refl, tt))
write_pending-Whole fd outbuf k (failed ∷ answers) =
    if_cases (Whole fd outbuf k) (length outbuf - k == 0) (λ _. (refl, tt)) (λ _. (refl, tt))

drop-all : (k : ℕ) (t : Text) → length t ≤ k → drop k t ≡ []
drop-all zero [] h = refl
drop-all zero (c ∷ cs) h = absurd (omega arith)
drop-all (suc k) [] h = refl
drop-all (suc k) (c ∷ cs) h = drop-all k cs (omega arith)

-- Reclaiming the consumed prefix leaves what is pending as it is.
reclaim-pending : (x : ClientSession) → pending (reclaim x) ≡ pending x
unfolding reclaim pending_bytes
reclaim-pending x =
    if_cases (λ (y : ClientSession). pending y ≡ pending x) (pending_bytes x == 0)
      (λ h. sym (drop-all x.out_start x.outbuf (ground arith)))
      (λ _.
        if_cases (λ (y : ClientSession). pending y ≡ pending x) (ltb read_chunk x.out_start)
          (λ _. refl) (λ _. refl))

-- The loop of `flush`, whatever the kernel answers: the bytes that the kernel takes, then those still
-- pending once the buffer is reclaimed, are exactly the bytes that were pending; and all of them are
-- sent to the session's own descriptor.
pub write_pending-reclaim :
    (x : ClientSession) (answers : List SendAnswer)
    → let w = write_pending x.fd x.outbuf x.out_start answers in
      (taken_text w.taken ++ pending (reclaim (record x { out_start = w.out_start })) ≡ pending x)
      × All (λ t. t.0 ≡ x.fd) w.taken
write_pending-reclaim x answers =
    let w : Written = write_pending x.fd x.outbuf x.out_start answers in
    let (e, a) = write_pending-Whole x.fd x.outbuf x.out_start answers in
    (
      ap (λ t. taken_text w.taken ++ t) (reclaim-pending (record x { out_start = w.out_start }))
          ∙ e,
      a,
    )
