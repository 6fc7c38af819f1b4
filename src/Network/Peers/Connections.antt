-- ===== src/Network/Peers/Connections.antt =====
-- internal/network/server.go: no sequence of requests lists a known node twice.
use go_blockchain.Prelude.{
  Bool, true, false, List, [], ◌∷◌, some, if◌then◌else◌, Bytes, bytes_equal, codes, ltb, length,
  take, drop, Running, ◌>>>◌, ok,
}
use go_blockchain.Network.{Env, Server, command_length, bytes_to_command}
use go_blockchain.Network.Handlers.{dispatch, handle_request, handle_connection, limited}
use go_blockchain.Network.Peers.{AreDistinct, Yields, >>>-Yields}
use go_blockchain.Network.Peers.Handled.{
  HasDistinctNodes, handle_addr-Keeps, handle_block-Keeps, handle_inv-Keeps,
  handle_get_blocks-Keeps, handle_get_data-Keeps, handle_version-Keeps,
}
use go_blockchain.Network.Peers.Mined.{handle_tx-Keeps}

-- A choice by a test.
if-Keeps {ℓ} :
    {S : Type ℓ} (b : Bool) (x y : Running (Server S))
    → Yields HasDistinctNodes x
    → Yields HasDistinctNodes y
    → Yields HasDistinctNodes (if b then x else y)
if-Keeps true x y h k = h
if-Keeps false x y h k = k

module _ {ℓ} {S : Type ℓ} (env : Env S) where
  dispatch-Keeps :
      (command payload : Bytes) (s : Server S)
      → HasDistinctNodes s
      → Yields HasDistinctNodes (dispatch env command payload s)
  unfolding dispatch
  dispatch-Keeps command payload s d =
      if-Keeps (bytes_equal command (codes "addr")) _ _ (handle_addr-Keeps env payload s d) (
        if-Keeps (bytes_equal command (codes "block")) _ _ (handle_block-Keeps env payload s d) (
          if-Keeps (bytes_equal command (codes "inv")) _ _ (handle_inv-Keeps env payload s d) (
            if-Keeps (bytes_equal command (codes "getblocks")) _ _
              (handle_get_blocks-Keeps env payload s d)
              (if-Keeps (bytes_equal command (codes "getdata")) _ _
                (handle_get_data-Keeps env payload s d)
                (if-Keeps (bytes_equal command (codes "tx")) _ _ (handle_tx-Keeps env payload s d) (
                  if-Keeps (bytes_equal command (codes "version")) _ _
                    (handle_version-Keeps env payload s d) d))))))

  handle_connection-Keeps :
      (stream : Bytes) (s : Server S)
      → HasDistinctNodes s
      → Yields HasDistinctNodes (handle_connection env stream s)
  unfolding handle_connection handle_request
  handle_connection-Keeps stream s d =
      if-Keeps (ltb (length (limited stream)) command_length) _ _ d (
        dispatch-Keeps (bytes_to_command (take command_length (limited stream)))
          (drop command_length (limited stream)) s d)

  -- The requests that a node handles, one after another.
  unfoldable pub handle_all : List Bytes → Server S → Running (Server S)
  handle_all [] s = some (ok s)
  handle_all (stream ∷ streams) s = handle_connection env stream s >>> λ s'. handle_all streams s'

  -- However many requests of any content a node handles, and whichever nodes answer it: if its list of
  -- known nodes has no duplicates before, it has none in the state that it reaches. It reaches one
  -- unless it panics or the walk over its blocks or a search runs out of fuel: no error of a handler,
  -- of the storage or of `Reindex` ends it.
  pub handle_all-AreDistinct :
      (streams : List Bytes) (s : Server S)
      → AreDistinct s.known_nodes
      → Yields HasDistinctNodes (handle_all streams s)
  unfolding handle_all
  handle_all-AreDistinct [] s d = d
  handle_all-AreDistinct (stream ∷ streams) s d =
      >>>-Yields HasDistinctNodes HasDistinctNodes (handle_connection env stream s) _
        (handle_connection-Keeps stream s d) (λ s' d'. handle_all-AreDistinct streams s' d')
