-- ===== src/ConnGen/Connecting.antt =====
-- src/tools/conn_gen.cpp: `main` from the first connection to the last `close`. What the kernel answers
-- to the attempts to connect is a list; what is printed, and the waiting, are left out.
pub mod Attempts
pub mod Closing
use market_networks.Base.{
  Bool, List, Option, Text, [], false, if◌then◌else◌, length, ltb, none, not, some, suc, true, zero,
  ℕ, ◌%◌, ◌&&◌, ◌++◌, ◌^◌, ◌∷◌,
}
use market_networks.Network.Sockets.{
  SystemCall, opened, closed, bound, connected_to, Answer, succeeded, failed, SocketAnswer,
  socket_fd, no_socket, Lookup, connect_to,
}
use market_networks.ConnGen.{Plan}

-- The values of `errno` that the generator tells apart.
pub data Errno : Type 0 where
  econnreset econnrefused etimedout eintr eagain ewouldblock : Errno
  other_errno : Errno

unfoldable pub is_transient : Errno → Bool
is_transient other_errno = false
is_transient _ = true

-- What one attempt meets: the answers, `errno` after it, and whether a signal has come by its end.
pub record Try : Type 0 where
  pub socket : SocketAnswer
  pub bind : Answer
  pub connect : Answer
  pub errno : Errno
  pub stopped : Bool

-- What an attempt comes to: the descriptor, and the calls made. `bad_host` ends the program with
-- status 2; `undefined` is an index out of range.
pub data Attempt : Type 0 where
  tried : Option ℕ → List SystemCall → Attempt
  bad_host undefined : Attempt

-- `source_addresses[i]`
unfoldable pub source_at : ℕ → List Text → Option Text
source_at i [] = none
source_at zero (address ∷ addresses) = some address
source_at (suc i) (address ∷ addresses) = source_at i addresses

pub record Generator : Type 0 where
  pub connections : List ℕ
  pub retries : ℕ
  pub calls : List SystemCall

-- How the loop ends: at the target or by a signal, by a failure, with status 2, or not yet.
pub data Ending : Type 0 where
  finished gave_up refused faulted waiting : Ending

-- `for (int fd : connections) close(fd);`
unfoldable pub close_each : List ℕ → List SystemCall
close_each [] = []
close_each (fd ∷ fds) = closed fd ∷ close_each fds

-- After the loop: the exit status, none while the loop goes on.
unfoldable pub conclude : Ending → Generator → Option ℕ × Generator
unfolding close_each
conclude finished g = (some 0, record g { calls = g.calls ++ close_each g.connections })
conclude gave_up g = (some 0, record g { calls = g.calls ++ close_each g.connections })
conclude refused g = (some 2, g)
conclude faulted g = (none, g)
conclude waiting g = (none, g)

module _ (inet_pton : Text → Option ℕ) (getaddrinfo : Text → Lookup) where
  -- `bind` to port 0 of the address; the calls made.
  unfoldable pub bind_source : ℕ → Text → Answer → Bool × List SystemCall
  bind_source fd address bind = elim (inet_pton address) [
    | none ↦ (false, [])
    | some a ↦ elim bind [
      | succeeded ↦ (true, bound fd a 0 ∷ [])
      | failed why ↦ (false, bound fd a 0 ∷ [])
    ]
  ]

  -- A socket bound to `source` before it connects.
  unfoldable pub connect_from : Text → ℕ → ℕ → Try → Attempt
  unfolding bind_source
  connect_from source remote port t = elim t.socket [
    | no_socket why ↦ tried none []
    | socket_fd fd ↦
        let (could_bind, made) = bind_source fd source t.bind in
        let reached = opened fd ∷ (made ++ connected_to fd remote (port % 2 ^ 16) ∷ []) in
        if not could_bind
        then tried none (opened fd ∷ (made ++ closed fd ∷ []))
        else elim t.connect [
          | succeeded ↦ tried (some fd) reached
          | failed why ↦ tried none (reached ++ closed fd ∷ [])
        ]
  ]

  -- The body of the loop up to the descriptor; `count` is the number of connections.
  unfoldable pub attempt : Plan → ℕ → Try → Attempt
  unfolding connect_to connect_from source_at
  attempt p count t = elim p.options.source_addresses [
    | [] ↦
        let (fd, error, made) = connect_to inet_pton getaddrinfo p.host p.port t.socket t.connect in
        tried fd made
    | address ∷ addresses ↦ elim (inet_pton p.host) [
      | none ↦ bad_host
      | some remote ↦
          elim (source_at (count % length (address ∷ addresses)) (address ∷ addresses)) [
            | none ↦ undefined
            | some source ↦ connect_from source remote p.port t
          ]
    ]
  ]

  -- The loop and its `goto retry`: `left` is how many connections are still to be made, `retried` how
  -- often the present one was tried again.
  unfoldable pub connect_loop : Plan → List Try → ℕ → ℕ → Generator → Ending × Generator
  unfolding attempt is_transient
  connect_loop p tries zero retried g = (finished, g)
  connect_loop p [] (suc left) retried g = (waiting, g)
  connect_loop p (t ∷ tries) (suc left) retried g = elim (attempt p (length g.connections) t) [
    | undefined ↦ (faulted, g)
    | bad_host ↦ (refused, g)
    | tried fd made ↦ elim fd [
      | some fd ↦
          let next : Generator = record g {
            connections = g.connections ++ fd ∷ [];
            calls = g.calls ++ made;
          } in
          elim t.stopped [ true ↦ (finished, next) | false ↦ connect_loop p tries left 0 next ]
      | none ↦
          let spent : Generator = record g { calls = g.calls ++ made } in
          elim (is_transient t.errno && ltb retried 200 && not t.stopped) [
            | true ↦
                connect_loop p tries (suc left) (suc retried)
                  (record spent { retries = suc spent.retries })
            | false ↦ (gave_up, spent)
          ]
    ]
  ]

  -- From the connecting to the end of `main`.
  unfoldable pub generate : Plan → List Try → Option ℕ × Generator
  unfolding connect_loop conclude
  generate p tries =
      let (ending, g) =
        connect_loop p tries p.target 0 (record { connections = []; retries = 0; calls = [] }) in
      conclude ending g
