-- ===== src/Server/Examples/Watching.antt =====
-- The event loop's registrations at the run of two clients that connect, log in and trade.
use market_networks.Base.{[], false, inl, refl, some, ◌∷◌, ◌≡◌}
use market_networks.Network.EventLoop.{poll, event_loop}
use market_networks.Network.EventLoop.Poll.{event_loop-Indexed}
use market_networks.Server.Run.{run}
use market_networks.Server.State.{Server, wrote, interrupted, would_block}
use market_networks.Server.Watched.{IsWatched}
use market_networks.Server.Sound.Serving.{run-IsWatched, start-IsWatched}
use market_networks.Server.Examples.{
  listening, empty_server, empty_server-IsSound, batches, batches-Opens,
}

empty_server-IsWatched : IsWatched empty_server
unfolding event_loop
empty_server-IsWatched =
    start-IsWatched listening [] 9000 (event_loop false false poll []) 0
      (wrote 1 ∷ interrupted ∷ wrote 99 ∷ would_block ∷ []) (event_loop-Indexed false false poll [])
      (inl refl)

run-IsWatched_example : (s' : Server) × (run batches empty_server ≡ some s') × IsWatched s'
run-IsWatched_example =
    run-IsWatched batches empty_server empty_server-IsSound batches-Opens empty_server-IsWatched
