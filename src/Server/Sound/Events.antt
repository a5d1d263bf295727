-- ===== src/Server/Sound/Events.antt =====
-- Soundness of the events of a client in `run` of src/exchange_server.cpp.
use market_networks.Base.{
  Bool, List, Option, Option-cases, if_cases, if◌then◌else◌, inl, inr, refl, some, ℕ,
}
use market_networks.Base.Assoc.{find}
use market_networks.Network.EventLoop.{Event}
use market_networks.Server.State.{Server}
use market_networks.Server.Output.{on_writable, drop_client}
use market_networks.Server.Input.{RecvAnswer, on_readable}
use market_networks.Server.Run.{if_live, client_event}
use market_networks.Server.Sound.{IsSound}
use market_networks.Server.Sound.Dropping.{drop_client-Steps}
use market_networks.Server.Sound.Flushing.{on_writable-Steps}
use market_networks.Server.Sound.Reading.{Tends-refl, Ends, Ends-Steps, on_readable-Ends}

if_live-Ends :
    (fd : ℕ) (f : Server → Option Server) (s : Server)
    → IsSound s
    → ((t : Server) → IsSound t → Ends t (f t))
    → Ends s (if_live fd f s)
unfolding if_live
if_live-Ends fd f s v g = elim (Option-cases (find fd s.sessions)) [
  | inl e ↦ (s, rw (if_live, e), v, Tends-refl s)
  | inr (x, e) ↦ rw (if_live, e) (g s v)
]

when-Ends :
    (b : Bool) (f : Server → Option Server) (s : Server)
    → IsSound s
    → Ends s (f s)
    → Ends s (if b then f s else some s)
when-Ends b f s v h = if_cases (Ends s) b (λ _. h) (λ _. (s, refl, v, Tends-refl s))

pub client_event-Ends :
    (e : Event) (receives : List RecvAnswer) (s : Server)
    → IsSound s
    → Ends s (client_event e receives s)
unfolding client_event
client_event-Ends e receives s v =
    let (s1, f1, v1, b1) =
      if_live-Ends e.fd (λ t. if e.writable then on_writable e.fd t else some t) s v
        (λ t w.
          when-Ends e.writable (on_writable e.fd) t w
            (Ends-Steps t _ (on_writable-Steps e.fd t w))) in
    let (s2, f2, v2, b2) =
      if_live-Ends e.fd (λ t. if e.readable then on_readable e.fd receives t else some t) s1 v1
        (λ t w.
          when-Ends e.readable (on_readable e.fd receives) t w
            (on_readable-Ends e.fd receives t w)) in
    let (s3, f3, v3, b3) =
      if_live-Ends e.fd (λ t. if e.hangup then drop_client e.fd t else some t) s2 v2
        (λ t w.
          when-Ends e.hangup (drop_client e.fd) t w
            (Ends-Steps t _ (drop_client-Steps e.fd t w))) in
    (s3, rw (f1, f2, f3), v3, λ b h. b3 b (b2 b (b1 b h)))
